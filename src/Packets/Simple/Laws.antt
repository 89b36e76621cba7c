-- ===== src/Packets/Simple/Laws.antt =====
-- The packet types whose struct is written whole: every known version is read, with zeros for the
-- members that the version lacks.
use libpueorawdata.Prelude.{
  ℕ, ◌+◌, ◌-◌, ◌≤◌, ◌<◌, ◌^◌, ◌≡◌, refl, sym, ap, ◌∙◌, Bool, true, false, [], ◌++◌, length, drop,
  arith, le→ltb, drop_all, take_all, length-drop, append-nil,
}
use libpueorawdata.Prelude.Int.{pos}
use libpueorawdata.Prelude.Run.{done}
use libpueorawdata.Prelude.Memory.{Bytes, zeros}
use libpueorawdata.Prelude.Memory.Pieces.{load_front, load_inside, store_front, clear_piece}
use libpueorawdata.Datatype.{
  Kind, full_waveforms, single_waveform, nav_sat, sensors_telem, sensors_disk, cmd_echo, logs,
  file_download, latest_version, size_of,
}
use libpueorawdata.Versions.{packet_size}
use libpueorawdata.Versions.Bounds.{packet_size-latest}
use libpueorawdata.Handle.{Handle, Ops}
use libpueorawdata.Handle.File.{File, file_ops, wrote, left, put_bytes-file, get_bytes-file}
use libpueorawdata.Packets.Simple.{header_for_simple, write_simple, read_simple}
use libpueorawdata.Packets.Dispatch.{packet_header_for, write_packet, read_packet}
use libpueorawdata.Packets.Codec.{head_of, Reads, Writes}

-- The struct with the version's bytes in front and zeros behind.
abbrev pub zero_filled : Kind → Bytes → Bytes
zero_filled k bs = bs ++ zeros (size_of k - length bs)

header_for_simple_lem :
    (k : Kind) (ver : ℕ) (bs rest : Bytes)
    → packet_size k ver ≡ pos (length bs)
    → header_for_simple k (bs ++ rest) ver ≡ done (head_of k ver bs)
unfolding header_for_simple
header_for_simple_lem k ver bs rest size =
    rw (size, header_for_simple) (rw (load_front (length bs) bs rest refl))

-- Behind the payload everything is cleared.
nothing_left :
    (bs q : Bytes) (size : ℕ)
    → length bs ≤ size
    → length q ≡ size
    → drop (size - length bs) (drop (length bs) q) ≡ []
nothing_left bs q size fits e =
    drop_all (size - length bs) (drop (length bs) q) (omega (arith, length-drop (length bs) q))

read_simple_lem :
    (k : Kind) (ver : ℕ) (bs q rest : Bytes) (h : Handle File)
    → packet_size k ver ≡ pos (length bs)
    → length bs ≤ size_of k
    → length q ≡ size_of k
    → h.aux.unread ≡ bs ++ rest
    → read_simple k file_ops q ver h ≡ done (pos (length bs), zero_filled k bs, left rest h)
unfolding read_simple
read_simple_lem k ver bs q rest h size fits e u =
    let room : size_of k - length bs ≤ length (drop (length bs) q) =
      omega (arith, length-drop (length bs) q) in
    rw (size, read_simple)
      (rw (
        le→ltb (size_of k) (length bs) fits,
        get_bytes-file (length bs) 0 q bs rest h refl u,
        store_front bs q (omega arith),
        clear_piece (length bs) (size_of k - length bs) bs (drop (length bs) q) refl room,
        nothing_left bs q (size_of k) fits e,
        append-nil (zeros (size_of k - length bs)),
      ))

write_simple_lem :
    (k : Kind) (p : Bytes) (h : Handle File)
    → length p ≡ size_of k
    → length p ≤ h.aux.room
    → write_simple k file_ops p h ≡ done (pos (length p), wrote p h)
unfolding write_simple
write_simple_lem k p h e fits =
    rw (load_inside 0 (size_of k) p (omega arith), take_all (size_of k) p (omega arith))
      (put_bytes-file p h fits)

-- SIMPLE_PUEO_IO_IMPL is given for these.
abbrev pub is_simple : Kind → Bool
is_simple full_waveforms = false
is_simple single_waveform = false
is_simple nav_sat = false
is_simple sensors_telem = false
is_simple sensors_disk = false
is_simple cmd_echo = false
is_simple logs = false
is_simple file_download = false
is_simple _ = true

pub header_is_simple :
    (k : Kind) (p : Bytes) (ver : ℕ)
    → is_simple k ≡ true
    → packet_header_for k p ver ≡ header_for_simple k p ver
unfolding packet_header_for
header_is_simple full_waveforms p ver h = cc
header_is_simple single_waveform p ver h = cc
header_is_simple nav_sat p ver h = cc
header_is_simple sensors_telem p ver h = cc
header_is_simple sensors_disk p ver h = cc
header_is_simple cmd_echo p ver h = cc
header_is_simple logs p ver h = cc
header_is_simple file_download p ver h = cc
header_is_simple _ p ver h = refl

pub read_is_simple :
    {S : Type 0} (k : Kind) (ops : Ops S) (p : Bytes) (ver : ℕ) (h : Handle S)
    → is_simple k ≡ true
    → read_packet k ops p ver h ≡ read_simple k ops p ver h
unfolding read_packet
read_is_simple full_waveforms ops p ver h e = cc
read_is_simple single_waveform ops p ver h e = cc
read_is_simple nav_sat ops p ver h e = cc
read_is_simple sensors_telem ops p ver h e = cc
read_is_simple sensors_disk ops p ver h e = cc
read_is_simple cmd_echo ops p ver h e = cc
read_is_simple logs ops p ver h e = cc
read_is_simple file_download ops p ver h e = cc
read_is_simple _ ops p ver h e = refl

pub write_is_simple :
    {S : Type 0} (k : Kind) (ops : Ops S) (p : Bytes) (h : Handle S)
    → is_simple k ≡ true
    → write_packet k ops p h ≡ write_simple k ops p h
unfolding write_packet
write_is_simple full_waveforms ops p h e = cc
write_is_simple single_waveform ops p h e = cc
write_is_simple nav_sat ops p h e = cc
write_is_simple sensors_telem ops p h e = cc
write_is_simple sensors_disk ops p h e = cc
write_is_simple cmd_echo ops p h e = cc
write_is_simple logs ops p h e = cc
write_is_simple file_download ops p h e = cc
write_is_simple _ ops p h e = refl

simple-small : (k : Kind) → is_simple k ≡ true → size_of k < 2 ^ 20
unfolding size_of
simple-small full_waveforms e = omega arith
simple-small _ e = omega arith

-- With its header, it fits a datagram.
pub simple-datagram : (k : Kind) → is_simple k ≡ true → 8 + size_of k ≤ 65507
unfolding size_of
simple-datagram full_waveforms e = cc
simple-datagram file_download e = cc
simple-datagram _ e = omega arith

-- Any known version is read into the whole struct.
pub simple-Reads :
    (k : Kind) (ver : ℕ) (bs : Bytes)
    → is_simple k ≡ true
    → packet_size k ver ≡ pos (length bs)
    → length bs ≤ size_of k
    → Reads k ver bs (λ _. zero_filled k bs)
simple-Reads k ver bs simple size fits = record {
  small = omega (arith, simple-small k simple);
  reads = λ q rest h e u.
      read_is_simple k file_ops q ver h simple ∙ read_simple_lem k ver bs q rest h size fits e u;
  header_again = λ q e.
      header_is_simple k (zero_filled k bs) ver simple
      ∙ header_for_simple_lem k ver bs (zeros (size_of k - length bs)) size;
}

pub simple-Writes :
    (k : Kind) (p : Bytes) → is_simple k ≡ true → length p ≡ size_of k → Writes k p p
simple-Writes k p simple e = record {
  header =
      header_is_simple k p (latest_version k) simple
      ∙ (ap (λ t. header_for_simple k t (latest_version k)) (sym (append-nil p))
          ∙ header_for_simple_lem k (latest_version k) p []
              (packet_size-latest k ∙ ap pos (sym e)));
  writes = λ h fits. write_is_simple k file_ops p h simple ∙ write_simple_lem k p h e fits;
}
