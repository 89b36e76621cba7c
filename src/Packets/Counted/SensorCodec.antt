-- ===== src/Packets/Counted/SensorCodec.antt =====
-- The sensor packets keep the promises of `Codec`, in version 1, which is the
-- one that is written. An object is taken apart at
-- the array: the front `fs`, and the readings `bs` that it counts.
use libpueorawdata.Prelude.{
  ℕ, ◌+◌, ◌-◌, ◌*◌, ◌^◌, ◌≤◌, ◌<◌, ◌≡◌, refl, ap, ◌∙◌, ◌++◌, length, arith, length-append, ltb,
  if◌then◌else◌, Bool-cases, inl, inr, false,
}
use libpueorawdata.Prelude.Int.{pos}
use libpueorawdata.Prelude.Run.{done}
use libpueorawdata.Prelude.Memory.{Bytes, clear}
use libpueorawdata.Prelude.Memory.Pieces.{load_front}
use libpueorawdata.Datatype.{sensors_disk, sensors_telem, size_of, member_at, latest_version}
use libpueorawdata.Handle.File.{put_bytes-file}
use libpueorawdata.Packets.Counted.{num_disk, num_telem, disk_size, telem_size, clear_from}
use libpueorawdata.Packets.Counted.Pieces.{
  behind, cleared, read_two-file, clear-behind, count_whole, load_whole,
}
use libpueorawdata.Packets.Counted.Sensors.{
  disk_bytes, telem_bytes, header_for_sensors_disk, write_sensors_disk, read_sensors_disk,
  header_for_sensors_telem, write_sensors_telem, read_sensors_telem,
}
use libpueorawdata.Packets.Dispatch.{packet_header_for, write_packet, read_packet}
use libpueorawdata.Packets.Codec.{head_of, Reads, Writes}

abbrev disk_count : Bytes → ℕ
disk_count t = num_disk t * disk_size

abbrev telem_count : Bytes → ℕ
telem_count t = num_telem t * telem_size

-- The disk packet's array is the rest of its struct.
disk_room :
    (member_at sensors_disk "sensors" + 256 * disk_size ≡ size_of sensors_disk)
    × (size_of sensors_disk < 2 ^ 20)
    × (disk_size ≡ 12)
unfolding member_at size_of disk_size
disk_room = omega arith

telem_room :
    (member_at sensors_telem "sensors" ≤ size_of sensors_telem) × (size_of sensors_telem < 2 ^ 20)
unfolding member_at size_of
telem_room = omega arith

module _ (fs bs : Bytes) (front : length fs ≡ member_at sensors_disk "sensors")
    (counted : (x : Bytes) → disk_count (fs ++ x) ≡ length bs)
    (fits : member_at sensors_disk "sensors" + length bs ≤ size_of sensors_disk) where
  sensors_disk_header :
      (x : Bytes)
      → packet_header_for sensors_disk ((fs ++ bs) ++ x) 1
        ≡ done (head_of sensors_disk 1 (fs ++ bs))
  unfolding packet_header_for header_for_sensors_disk disk_bytes
  sensors_disk_header x =
      let total : member_at sensors_disk "sensors" + length bs ≡ length (fs ++ bs) =
        omega (arith, length-append fs bs) in
      rw (
        count_whole (member_at sensors_disk "sensors") disk_count fs bs front counted x,
        total,
        load_front (length (fs ++ bs)) (fs ++ bs) x refl,
      )

  sensors_disk_cleared :
      (q : Bytes)
      → length q ≡ size_of sensors_disk
      → clear_from
          (pos (length (fs ++ bs)))
          (size_of sensors_disk)
          ((fs ++ bs) ++ behind (member_at sensors_disk "sensors") disk_count fs bs front counted q)
        ≡ done (
            cleared
              (member_at sensors_disk "sensors")
              disk_count
              fs
              bs
              front
              counted
              (size_of sensors_disk - length (fs ++ bs))
              q)
  unfolding clear_from
  sensors_disk_cleared q e =
      ap
        (λ t. clear t (size_of sensors_disk - length (fs ++ bs)) (
          (fs ++ bs) ++ behind (member_at sensors_disk "sensors") disk_count fs bs front counted q))
        (length-append fs bs ∙ ap (λ t. t + length bs) front)
      ∙ clear-behind (member_at sensors_disk "sensors") disk_count fs bs front counted
          (size_of sensors_disk - length (fs ++ bs)) q (omega (arith, length-append fs bs))

  -- A full array leaves nothing to clear.
  sensors_disk_filled :
      (q : Bytes) (t : Bytes)
      → length q ≡ size_of sensors_disk
      → t ≡ (fs ++ bs) ++ behind (member_at sensors_disk "sensors") disk_count fs bs front counted q
      → (if ltb (num_disk t) 256
          then clear_from (pos (length (fs ++ bs))) (size_of sensors_disk) t
          else done t)
        ≡ done (
            cleared
              (member_at sensors_disk "sensors")
              disk_count
              fs
              bs
              front
              counted
              (size_of sensors_disk - length (fs ++ bs))
              q)
  sensors_disk_filled q t e whole = elim (Bool-cases (ltb (num_disk t) 256)) [
    | inl short ↦ rw (short, whole) (sensors_disk_cleared q e)
    | inr full ↦
        let count : num_disk t * disk_size ≡ length bs =
          ap disk_count whole
          ∙ count_whole (member_at sensors_disk "sensors") disk_count fs bs front counted _ in
        let none_left : size_of sensors_disk - length (fs ++ bs) ≡ 0 =
          full_array (num_disk t) count full in
        rw (full, none_left, whole)
  ]
    where
      full_array :
          (n : ℕ)
          → n * disk_size ≡ length bs
          → ltb n 256 ≡ false
          → size_of sensors_disk - length (fs ++ bs) ≡ 0
      full_array n count full =
          grind (arith, disk_room, length-append fs bs, ap (λ (t : ℕ). n * t) disk_room.2)

  pub sensors_disk-Reads : Reads sensors_disk 1 (fs ++ bs) (
      cleared
        (member_at sensors_disk "sensors")
        disk_count
        fs
        bs
        front
        counted
        (size_of sensors_disk - length (fs ++ bs)))
  unfolding read_packet read_sensors_disk
  sensors_disk-Reads = record {
    small = omega (arith, disk_room, length-append fs bs);
    reads = λ q rest h e u. rw (
      read_two-file (member_at sensors_disk "sensors") disk_count fs bs front counted q rest h
          (omega arith) u,
      sensors_disk_filled q _ e refl,
    );
    header_again = λ q e. sensors_disk_header _;
  }

  pub sensors_disk-Writes : (x : Bytes) → Writes sensors_disk ((fs ++ bs) ++ x) (fs ++ bs)
  unfolding write_packet write_sensors_disk latest_version
  sensors_disk-Writes x = record {
    header = sensors_disk_header x;
    writes = λ h room. rw (
      count_whole (member_at sensors_disk "sensors") disk_count fs bs front counted x,
      load_whole (member_at sensors_disk "sensors") disk_count fs bs front counted
          (member_at sensors_disk "sensors" + length bs) x refl,
      put_bytes-file (fs ++ bs) h room,
    );
  }

module _ (fs bs : Bytes) (front : length fs ≡ member_at sensors_telem "sensors")
    (counted : (x : Bytes) → telem_count (fs ++ x) ≡ length bs)
    (fits : member_at sensors_telem "sensors" + length bs ≤ size_of sensors_telem) where
  sensors_telem_header :
      (x : Bytes)
      → packet_header_for sensors_telem ((fs ++ bs) ++ x) 1
        ≡ done (head_of sensors_telem 1 (fs ++ bs))
  unfolding packet_header_for header_for_sensors_telem telem_bytes
  sensors_telem_header x =
      let total : member_at sensors_telem "sensors" + length bs ≡ length (fs ++ bs) =
        omega (arith, length-append fs bs) in
      rw (
        count_whole (member_at sensors_telem "sensors") telem_count fs bs front counted x,
        total,
        load_front (length (fs ++ bs)) (fs ++ bs) x refl,
      )

  sensors_telem_cleared :
      (q : Bytes)
      → length q ≡ size_of sensors_telem
      → clear_from (pos (length (fs ++ bs))) (size_of sensors_telem) (
          (fs ++ bs)
          ++ behind (member_at sensors_telem "sensors") telem_count fs bs front counted q)
        ≡ done (
            cleared
              (member_at sensors_telem "sensors")
              telem_count
              fs
              bs
              front
              counted
              (size_of sensors_telem - length (fs ++ bs))
              q)
  unfolding clear_from
  sensors_telem_cleared q e =
      ap
        (λ t. clear t (size_of sensors_telem - length (fs ++ bs)) (
          (fs ++ bs)
          ++ behind (member_at sensors_telem "sensors") telem_count fs bs front counted q))
        (length-append fs bs ∙ ap (λ t. t + length bs) front)
      ∙ clear-behind (member_at sensors_telem "sensors") telem_count fs bs front counted
          (size_of sensors_telem - length (fs ++ bs)) q (omega (arith, length-append fs bs))

  pub sensors_telem-Reads : Reads sensors_telem 1 (fs ++ bs) (
      cleared
        (member_at sensors_telem "sensors")
        telem_count
        fs
        bs
        front
        counted
        (size_of sensors_telem - length (fs ++ bs)))
  unfolding read_packet read_sensors_telem
  sensors_telem-Reads = record {
    small = omega (arith, telem_room, length-append fs bs);
    reads = λ q rest h e u. rw (
      read_two-file (member_at sensors_telem "sensors") telem_count fs bs front counted q rest h
          (omega arith) u,
      sensors_telem_cleared q e,
    );
    header_again = λ q e. sensors_telem_header _;
  }

  pub sensors_telem-Writes : (x : Bytes) → Writes sensors_telem ((fs ++ bs) ++ x) (fs ++ bs)
  unfolding write_packet write_sensors_telem latest_version
  sensors_telem-Writes x = record {
    header = sensors_telem_header x;
    writes = λ h room. rw (
      count_whole (member_at sensors_telem "sensors") telem_count fs bs front counted x,
      load_whole (member_at sensors_telem "sensors") telem_count fs bs front counted
          (member_at sensors_telem "sensors" + length bs) x refl,
      put_bytes-file (fs ++ bs) h room,
    );
  }
