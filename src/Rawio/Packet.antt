-- ===== src/Rawio/Packet.antt =====
-- `pueo_packet_t` and the functions of src/rawio.c that find out a packet's type.
pub mod Cast
pub mod Retry
use libpueorawdata.Prelude.{
  ℕ, ◌+◌, Bool, true, false, ltb, ◌==◌, if◌then◌else◌, ◌&&◌, Option, none, some, String,
}
use libpueorawdata.Prelude.Int.{ℤ, pos, negsuc, is_negsuc}
use libpueorawdata.Prelude.Run.{Run, done, ◌>>=◌}
use libpueorawdata.Prelude.Memory.{Bytes, zeros}
use libpueorawdata.Datatype.{
  Kind, full_waveforms, single_waveform, nav_att, nav_sat, nav_pos, sensors_telem, sensors_disk,
  slow, cmd_echo, ss, timemark, startracker, logs, daq_hsk, daq_hsk_summary, file_download,
  saved_priorities, prio_status, code, of_code, size_of,
}
use libpueorawdata.Handle.{Handle, Ops}
use libpueorawdata.Handle.Header.{decode_head}
use libpueorawdata.Rawio.{eof, is_eof, head_size, maybe_read_header, read_typed}

-- `payload` holds `payload_capacity` bytes.
pub record Packet : Type 0 where
  pub head : Bytes
  pub payload_capacity : ℕ
  pub payload : Bytes

abbrev pub head_type : Bytes → ℕ
head_type head = (decode_head head).type

-- `pueo_packet_init`, for the packet that stands in the allocated bytes.
unfoldable pub packet_init : ℕ → Bytes → Packet
packet_init capacity payload = record {
  head = zeros head_size;
  payload_capacity = capacity;
  payload = payload;
}

-- `pueo_size_inmem`.
unfoldable pub size_inmem : ℕ → ℤ
size_inmem type = elim (of_code type) [ none ↦ negsuc 0 | some k ↦ pos (size_of k) ]

-- `pueo_packet_as_X`: the payload, or none for a null pointer.
unfoldable pub packet_as : Kind → Packet → Option Bytes
packet_as k p =
    if head_type p.head == code k && ltb (size_of k) p.payload_capacity
    then some p.payload
    else none

-- `pueo_packet_name`: the second column of the dispatch table.
unfoldable pub type_name : Kind → String
type_name full_waveforms = "full_waveforms"
type_name single_waveform = "single_waveform"
type_name nav_att = "nav_att"
type_name nav_sat = "nav_sat"
type_name nav_pos = "nav_pos"
type_name sensors_telem = "sensors_telem"
type_name sensors_disk = "sensors_disk"
type_name slow = "slow"
type_name cmd_echo = "cmd_echo"
type_name ss = "ss"
type_name timemark = "timemark"
type_name startracker = "startracker"
type_name logs = "logs"
type_name daq_hsk = "daq_hsk"
type_name daq_hsk_summary = "daq_hsk_summary"
type_name file_download = "file_download"
type_name saved_priorities = "saved_priorities"
type_name prio_status = "prio_status"

unfoldable pub packet_name : Packet → String
packet_name p = elim (of_code (head_type p.head)) [ none ↦ "unknown" | some k ↦ type_name k ]

-- -EIO and -EMSGSIZE.
abbrev pub eio : ℤ
eio = negsuc 4

abbrev pub emsgsize : ℤ
emsgsize = negsuc 89

-- Is a returned number of bytes smaller than the header?
abbrev pub below_head_size : ℤ → Bool
below_head_size (pos n) = ltb n head_size
below_head_size (negsuc n) = true

-- The first `switch` of `pueo_ll_read`: an unknown type leaves the size as it is, at 0.
unfoldable pub require_size : {S : Type 0} → Handle S → Handle S
require_size h = elim (of_code (head_type h.last_read_header)) [
  | none ↦ h
  | some k ↦ record h { required_read_size = size_of k }
]

-- The second `switch`: nothing is read for an unknown type.
unfoldable pub read_into_payload :
    {S : Type 0} → Ops S → Packet → Handle S → Run (ℤ × Bytes × Handle S)
read_into_payload ops dest h = elim (of_code (head_type h.last_read_header)) [
  | none ↦ done (pos 0, dest.payload, h)
  | some k ↦ read_typed k ops dest.payload h
]

-- From the check of the capacity on.
unfoldable pub read_payload : {S : Type 0} → Ops S → Packet → Handle S → Run (ℤ × Packet × Handle S)
unfolding read_into_payload
read_payload ops dest h =
    let head = h.last_read_header in
    if ltb dest.payload_capacity h.required_read_size
    then done (emsgsize, record dest { head = zeros head_size }, h)
    else (read_into_payload ops dest h >>= λ (nread, payload, h). done (
      nread,
      record dest { head = head; payload = payload },
      record h { required_read_size = 0; already_read_head = false },
    ))

-- `pueo_ll_read`, into a packet that is there.
unfoldable pub ll_read : {S : Type 0} → Ops S → Packet → Handle S → Run (ℤ × Packet × Handle S)
unfolding require_size read_payload
ll_read ops dest h =
    if h.required_read_size == 0
    then (maybe_read_header ops h >>= λ (r, h).
        if is_eof r
        then done (eof, dest, h)
        else if below_head_size r
        then done (eio, dest, h)
        else read_payload ops dest (require_size h))
    else read_payload ops dest h

-- `pueo_ll_read_realloc`. `fresh n` stands for the `n` bytes that `malloc` hands out; it is taken to
-- succeed.
unfoldable pub ll_read_realloc :
    {S : Type 0} → (ℕ → Bytes) → Ops S → Option Packet → Handle S → Run (ℤ × Packet × Handle S)
ll_read_realloc fresh ops dest h = do
  let first : Packet = elim dest [ none ↦ packet_init 512 (fresh 512) | some p ↦ p ]
  (nread, p, h) ← ll_read ops first h
  if is_negsuc nread 89
      then ll_read ops (packet_init h.required_read_size (fresh h.required_read_size)) h
      else done (nread, p, h)
