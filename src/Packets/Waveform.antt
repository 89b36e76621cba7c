-- ===== src/Packets/Waveform.antt =====
-- The waveform packets of src/rawio_packets.c. A `pueo_waveform_t` is embedded in its packet: the
-- functions take the object's bytes and the offset at which the waveform stands.
pub mod Pieces
pub mod Single
pub mod Blocks
pub mod Channels
pub mod Full
pub mod Split
use libpueorawdata.Prelude.{
  ℕ, zero, suc, ◌+◌, ◌-◌, ◌*◌, ◌%◌, ◌^◌, ltb, ◌==◌, if◌then◌else◌, not, true, false,
}
use libpueorawdata.Prelude.Int.{ℤ, pos, negsuc, ◌+ℤ◌, is_negative, is_ℕ}
use libpueorawdata.Prelude.Run.{Run, done, ◌>>=◌}
use libpueorawdata.Prelude.Memory.{Bytes, u16_at, load, clear}
use libpueorawdata.Layout.{sizeof, offsetof}
use libpueorawdata.Geometry.{nchan, max_buffer_length}
use libpueorawdata.Formats.Event.{waveform_t}
use libpueorawdata.Formats.Base.{time_t}
use libpueorawdata.Crc.{crc16_start, crc16_continue}
use libpueorawdata.Datatype.{Kind, single_waveform, full_waveforms, member_at}
use libpueorawdata.Handle.{Handle, Ops, put_bytes, get_bytes}
use libpueorawdata.Handle.Header.{Head, make_head}

-- `offsetof(pueo_waveform_t, data)`.
unfoldable pub waveform_data : ℕ
unfolding offsetof waveform_t
waveform_data = offsetof waveform_t "data"

-- `wf->length` after CHECK_WF_LENGTH.
unfoldable pub checked_length : Bytes → ℕ → ℕ
unfolding offsetof waveform_t
checked_length p at =
    let length = u16_at p (at + offsetof waveform_t "length") in
    if ltb max_buffer_length length then max_buffer_length else length

-- The bytes of a waveform up to its last sample; a sample has two.
unfoldable pub waveform_size : Bytes → ℕ → ℕ
waveform_size p at = waveform_data + checked_length p at * 2

unfoldable pub write_waveform : {S : Type 0} → Ops S → Bytes → ℕ → Handle S → Run (ℤ × Handle S)
write_waveform ops p at h = load at (waveform_size p at) p >>= λ bs. put_bytes ops bs h

unfoldable pub read_waveform :
    {S : Type 0} → Ops S → Bytes → ℕ → Handle S → Run (ℤ × Bytes × Handle S)
read_waveform ops p at h = do
  (nrd, p, h) ← get_bytes ops waveform_data at p h
  if not (is_ℕ nrd waveform_data) then done (negsuc 0, p, h) else do
    let length = checked_length p at
    (more, p, h) ← get_bytes ops (length * 2) (at + waveform_data) p h
    if not (is_ℕ (nrd +ℤ more) (waveform_data + length * 2))
        then done (negsuc 0, p, h)
        else done (nrd +ℤ more, p, h)

-- The length and checksum so far, continued over a waveform.
unfoldable pub update_len_cksum_waveform : ℕ → ℕ → Bytes → ℕ → Run (ℕ × ℕ)
update_len_cksum_waveform len cksum p at = do
  bs ← load at (waveform_size p at) p
  done ((len + waveform_size p at) % 2 ^ 32, crc16_continue cksum bs)

-- Where the part in front of the waveform ends in a version of the packet.
unfoldable pub single_front : ℕ → ℕ
single_front ver =
    if ver == 0
    then member_at single_waveform "readout_time"
    else if ver == 1
    then member_at single_waveform "prio"
    else member_at single_waveform "wf"

unfoldable pub write_single_waveform : {S : Type 0} → Ops S → Bytes → Handle S → Run (ℤ × Handle S)
write_single_waveform ops p h = do
  front ← load 0 (member_at single_waveform "wf") p
  (nwr, h) ← put_bytes ops front h
  (more, h) ← write_waveform ops p (member_at single_waveform "wf") h
  done (nwr +ℤ more, h)

unfoldable pub header_for_single_waveform : Bytes → ℕ → Run Head
header_for_single_waveform p ver = do
  front ← load 0 (single_front ver) p
  (len, crc) ←
      update_len_cksum_waveform (single_front ver) (crc16_continue crc16_start front) p
        (member_at single_waveform "wf")
  done (make_head single_waveform ver crc len)

unfoldable pub read_single_waveform :
    {S : Type 0} → Ops S → Bytes → ℕ → Handle S → Run (ℤ × Bytes × Handle S)
read_single_waveform ops p ver h = do
  p ←
      if ver == 0
      then clear (member_at single_waveform "readout_time") (sizeof time_t) p
      else done p
  (total, p, h) ← get_bytes ops (single_front ver) 0 p h
  if not (is_ℕ total (single_front ver)) then done (negsuc 0, p, h) else do
    (nrd, p, h) ← read_waveform ops p (member_at single_waveform "wf") h
    if is_negative nrd then done (negsuc 0, p, h) else done (total +ℤ nrd, p, h)

unfoldable pub full_front : ℕ → ℕ
full_front ver =
    if ver == 0 then member_at full_waveforms "readout_time" else member_at full_waveforms "wfs"

-- The offset of `wfs[i]`.
unfoldable pub channel_at : ℕ → ℕ
channel_at i = member_at full_waveforms "wfs" + i * sizeof waveform_t

-- The loops over the channels from `i` on, with `left` rounds to go.
unfoldable pub sum_channels : ℕ → ℕ → ℕ → ℕ → Bytes → Run (ℕ × ℕ)
sum_channels zero i len crc p = done (len, crc)
sum_channels (suc left) i len crc p =
    update_len_cksum_waveform len crc p (channel_at i) >>= λ (len, crc).
    sum_channels left (i + 1) len crc p

unfoldable pub header_for_full_waveforms : Bytes → ℕ → Run Head
header_for_full_waveforms p ver = do
  front ← load 0 (full_front ver) p
  (len, crc) ← sum_channels nchan 0 (full_front ver) (crc16_continue crc16_start front) p
  done (make_head full_waveforms ver crc len)

unfoldable pub write_channels :
    {S : Type 0} → ℕ → Ops S → ℕ → ℤ → Bytes → Handle S → Run (ℤ × Handle S)
write_channels zero ops i nwr p h = done (nwr, h)
write_channels (suc left) ops i nwr p h = write_waveform ops p (channel_at i) h >>= λ (more, h).
    write_channels left ops (i + 1) (nwr +ℤ more) p h

unfoldable pub write_full_waveforms : {S : Type 0} → Ops S → Bytes → Handle S → Run (ℤ × Handle S)
write_full_waveforms ops p h = do
  front ← load 0 (member_at full_waveforms "wfs") p
  (nwr, h) ← put_bytes ops front h
  write_channels nchan ops 0 nwr p h

unfoldable pub read_channels :
    {S : Type 0} → ℕ → Ops S → ℕ → ℤ → Bytes → Handle S → Run (ℤ × Bytes × Handle S)
read_channels zero ops i total p h = done (total, p, h)
read_channels (suc left) ops i total p h = read_waveform ops p (channel_at i) h >>= λ (nrd, p, h).
    elim (is_negative nrd) [
      | true ↦ done (negsuc 0, p, h)
      | false ↦ read_channels left ops (i + 1) (total +ℤ nrd) p h
    ]

unfoldable pub read_full_waveforms :
    {S : Type 0} → Ops S → Bytes → ℕ → Handle S → Run (ℤ × Bytes × Handle S)
read_full_waveforms ops p ver h = do
  (total, p, h) ← get_bytes ops (full_front ver) 0 p h
  p ← if ver == 0 then clear (member_at full_waveforms "readout_time") (sizeof time_t) p else done p
  if not (is_ℕ total (full_front ver))
      then done (negsuc 0, p, h)
      else read_channels nchan ops 0 total p h
