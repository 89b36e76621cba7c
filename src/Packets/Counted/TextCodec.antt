-- ===== src/Packets/Counted/TextCodec.antt =====
-- The command echo, file-download, log and satellite packets keep the promises of `Codec`. An
-- object is taken apart at the array: the front `fs`, and the `bs` of the array that it counts.
use libpueorawdata.Prelude.{
  ℕ, ◌+◌, ◌-◌, ◌%◌, ◌^◌, ◌≤◌, ◌<◌, ◌≡◌, refl, ap, ◌∙◌, ◌++◌, length, drop, arith, length-append,
}
use libpueorawdata.Prelude.Run.{done}
use libpueorawdata.Prelude.Memory.{Bytes, clear}
use libpueorawdata.Prelude.Memory.Pieces.{load_front}
use libpueorawdata.Formats.Base.{max_file_download_length}
use libpueorawdata.Crc.{crc16}
use libpueorawdata.Datatype.{cmd_echo, file_download, logs, nav_sat, size_of, member_at}
use libpueorawdata.Handle.File.{put_bytes-file}
use libpueorawdata.Packets.Counted.{cmd_len, download_len, logs_len, sats_len, clear_from}
use libpueorawdata.Packets.Counted.Pieces.{
  cleared, read_two-file, clear-behind, clear_array-behind, count_whole, load_whole,
}
use libpueorawdata.Packets.Counted.Text.{
  cmd_echo_data_length, logs_buf_length, header_for_cmd_echo, write_cmd_echo, read_cmd_echo,
  header_for_file_download, write_file_download, read_file_download, header_for_logs, write_logs,
  read_logs, header_for_nav_sat, write_nav_sat, read_nav_sat,
}
use libpueorawdata.Packets.Dispatch.{packet_header_for, write_packet, read_packet}
use libpueorawdata.Packets.Codec.{head_of, Reads, Writes}

wrapped_length :
    (at : ℕ) (fs bs : Bytes)
    → length fs ≡ at
    → at + length bs < 2 ^ 20
    → (at + length bs) % 2 ^ 32 ≡ length (fs ++ bs)
wrapped_length at fs bs front small = omega (arith, length-append fs bs)

pub cmd_echo_room :
    (member_at cmd_echo "data" + cmd_echo_data_length ≤ size_of cmd_echo)
    × (size_of cmd_echo < 2 ^ 20)
unfolding member_at size_of
cmd_echo_room = omega arith

module _ (fs bs : Bytes) (front : length fs ≡ member_at cmd_echo "data")
    (counted : (x : Bytes) → cmd_len (fs ++ x) ≡ length bs)
    (fits : length bs ≤ cmd_echo_data_length) where
  cmd_echo_header :
      (ver : ℕ) (x : Bytes)
      → packet_header_for cmd_echo ((fs ++ bs) ++ x) ver ≡ done (head_of cmd_echo ver (fs ++ bs))
  unfolding packet_header_for header_for_cmd_echo crc16
  cmd_echo_header ver x = rw (
    count_whole (member_at cmd_echo "data") cmd_len fs bs front counted x,
    wrapped_length (member_at cmd_echo "data") fs bs front (omega (arith, cmd_echo_room)),
    load_front (length (fs ++ bs)) (fs ++ bs) x refl,
  )

  pub cmd_echo-Reads :
      (ver : ℕ)
      → Reads cmd_echo ver (fs ++ bs) (
          cleared
            (member_at cmd_echo "data")
            cmd_len
            fs
            bs
            front
            counted
            (cmd_echo_data_length - length bs))
  unfolding read_packet read_cmd_echo
  cmd_echo-Reads ver = record {
    small = omega (arith, cmd_echo_room, length-append fs bs);
    reads = λ q rest h e u. rw (
      read_two-file (member_at cmd_echo "data") cmd_len fs bs front counted q rest h
          (omega (arith, cmd_echo_room)) u,
      count_whole (member_at cmd_echo "data") cmd_len fs bs front counted
          (drop (length bs) (drop (member_at cmd_echo "data") q)),
      clear_array-behind (member_at cmd_echo "data") cmd_len fs bs front counted
          cmd_echo_data_length q fits (omega (arith, cmd_echo_room)),
    );
    header_again = λ q e. cmd_echo_header ver _;
  }

  pub cmd_echo-Writes : (x : Bytes) → Writes cmd_echo ((fs ++ bs) ++ x) (fs ++ bs)
  unfolding write_packet write_cmd_echo
  cmd_echo-Writes x = record {
    header = cmd_echo_header _ x;
    writes = λ h room. rw (
      count_whole (member_at cmd_echo "data") cmd_len fs bs front counted x,
      load_whole (member_at cmd_echo "data") cmd_len fs bs front counted
          (member_at cmd_echo "data" + length bs) x refl,
      put_bytes-file (fs ++ bs) h room,
    );
  }

pub file_download_room :
    (member_at file_download "bytes" + max_file_download_length ≤ size_of file_download)
    × (size_of file_download < 2 ^ 20)
unfolding member_at size_of
file_download_room = omega arith

module _ (fs bs : Bytes) (front : length fs ≡ member_at file_download "bytes")
    (counted : (x : Bytes) → download_len (fs ++ x) ≡ length bs)
    (fits : length bs ≤ max_file_download_length) where
  file_download_header :
      (ver : ℕ) (x : Bytes)
      → packet_header_for file_download ((fs ++ bs) ++ x) ver
        ≡ done (head_of file_download ver (fs ++ bs))
  unfolding packet_header_for header_for_file_download crc16
  file_download_header ver x = rw (
    count_whole (member_at file_download "bytes") download_len fs bs front counted x,
    wrapped_length (member_at file_download "bytes") fs bs front
        (omega (arith, file_download_room)),
    load_front (length (fs ++ bs)) (fs ++ bs) x refl,
  )

  pub file_download-Reads :
      (ver : ℕ)
      → Reads file_download ver (fs ++ bs) (
          cleared
            (member_at file_download "bytes")
            download_len
            fs
            bs
            front
            counted
            (max_file_download_length - length bs))
  unfolding read_packet read_file_download
  file_download-Reads ver = record {
    small = omega (arith, file_download_room, length-append fs bs);
    reads = λ q rest h e u. rw (
      read_two-file (member_at file_download "bytes") download_len fs bs front counted q rest h
          (omega (arith, file_download_room)) u,
      count_whole (member_at file_download "bytes") download_len fs bs front counted
          (drop (length bs) (drop (member_at file_download "bytes") q)),
      clear_array-behind (member_at file_download "bytes") download_len fs bs front counted
          max_file_download_length q fits (omega (arith, file_download_room)),
    );
    header_again = λ q e. file_download_header ver _;
  }

  pub file_download-Writes : (x : Bytes) → Writes file_download ((fs ++ bs) ++ x) (fs ++ bs)
  unfolding write_packet write_file_download
  file_download-Writes x = record {
    header = file_download_header _ x;
    writes = λ h room. rw (
      count_whole (member_at file_download "bytes") download_len fs bs front counted x,
      load_whole (member_at file_download "bytes") download_len fs bs front counted
          (member_at file_download "bytes" + length bs) x refl,
      put_bytes-file (fs ++ bs) h room,
    );
  }

pub logs_room : (member_at logs "buf" + logs_buf_length ≤ size_of logs) × (size_of logs < 2 ^ 20)
unfolding member_at size_of
logs_room = omega arith

module _ (fs bs : Bytes) (front : length fs ≡ member_at logs "buf")
    (counted : (x : Bytes) → logs_len (fs ++ x) ≡ length bs)
    (fits : length bs ≤ logs_buf_length) where
  logs_header :
      (ver : ℕ) (x : Bytes)
      → packet_header_for logs ((fs ++ bs) ++ x) ver ≡ done (head_of logs ver (fs ++ bs))
  unfolding packet_header_for header_for_logs crc16
  logs_header ver x = rw (
    count_whole (member_at logs "buf") logs_len fs bs front counted x,
    wrapped_length (member_at logs "buf") fs bs front (omega (arith, logs_room)),
    load_front (length (fs ++ bs)) (fs ++ bs) x refl,
  )

  pub logs-Reads :
      (ver : ℕ)
      → Reads logs ver (fs ++ bs) (
          cleared (member_at logs "buf") logs_len fs bs front counted (logs_buf_length - length bs))
  unfolding read_packet read_logs
  logs-Reads ver = record {
    small = omega (arith, logs_room, length-append fs bs);
    reads = λ q rest h e u. rw (
      read_two-file (member_at logs "buf") logs_len fs bs front counted q rest h
          (omega (arith, logs_room)) u,
      count_whole (member_at logs "buf") logs_len fs bs front counted
          (drop (length bs) (drop (member_at logs "buf") q)),
      clear_array-behind (member_at logs "buf") logs_len fs bs front counted logs_buf_length q fits
          (omega (arith, logs_room)),
    );
    header_again = λ q e. logs_header ver _;
  }

  pub logs-Writes : (x : Bytes) → Writes logs ((fs ++ bs) ++ x) (fs ++ bs)
  unfolding write_packet write_logs
  logs-Writes x = record {
    header = logs_header _ x;
    writes = λ h room. rw (
      count_whole (member_at logs "buf") logs_len fs bs front counted x,
      load_whole (member_at logs "buf") logs_len fs bs front counted
          (member_at logs "buf" + length bs) x refl,
      put_bytes-file (fs ++ bs) h room,
    );
  }

nav_sat_room : (member_at nav_sat "sats" + 1 ≤ size_of nav_sat) × (size_of nav_sat < 2 ^ 20)
unfolding member_at size_of
nav_sat_room = omega arith

module _ (fs bs : Bytes) (front : length fs ≡ member_at nav_sat "sats")
    (counted : (x : Bytes) → sats_len (fs ++ x) ≡ length bs)
    (fits : member_at nav_sat "sats" + length bs ≤ size_of nav_sat) where
  nav_sat_header :
      (ver : ℕ) (x : Bytes)
      → packet_header_for nav_sat ((fs ++ bs) ++ x) ver ≡ done (head_of nav_sat ver (fs ++ bs))
  unfolding packet_header_for header_for_nav_sat crc16
  nav_sat_header ver x = rw (
    count_whole (member_at nav_sat "sats") sats_len fs bs front counted x,
    wrapped_length (member_at nav_sat "sats") fs bs front (omega (arith, nav_sat_room)),
    load_front (length (fs ++ bs)) (fs ++ bs) x refl,
  )

  pub nav_sat-Reads :
      (ver : ℕ)
      → Reads nav_sat ver (fs ++ bs) (
          cleared
            (member_at nav_sat "sats")
            sats_len
            fs
            bs
            front
            counted
            (size_of nav_sat - length (fs ++ bs)))
  unfolding read_packet read_nav_sat clear_from
  nav_sat-Reads ver = record {
    small = omega (arith, nav_sat_room, length-append fs bs);
    reads = λ q rest h e u. rw (
      read_two-file (member_at nav_sat "sats") sats_len fs bs front counted q rest h
          (omega (arith, nav_sat_room)) u,
      ap
          (λ t.
            clear t (size_of nav_sat - length (fs ++ bs))
              ((fs ++ bs) ++ drop (length bs) (drop (member_at nav_sat "sats") q)))
          (length-append fs bs ∙ ap (λ t. t + length bs) front),
      clear-behind (member_at nav_sat "sats") sats_len fs bs front counted
          (size_of nav_sat - length (fs ++ bs)) q
          (omega (arith, nav_sat_room, length-append fs bs)),
    );
    header_again = λ q e. nav_sat_header ver _;
  }

  pub nav_sat-Writes : (x : Bytes) → Writes nav_sat ((fs ++ bs) ++ x) (fs ++ bs)
  unfolding write_packet write_nav_sat
  nav_sat-Writes x = record {
    header = nav_sat_header _ x;
    writes = λ h room. rw (
      count_whole (member_at nav_sat "sats") sats_len fs bs front counted x,
      load_whole (member_at nav_sat "sats") sats_len fs bs front counted
          (member_at nav_sat "sats" + length bs) x refl,
      put_bytes-file (fs ++ bs) h room,
    );
  }
