-- ===== src/Packets/Counted/Text.antt =====
-- The command echo, file-download, log and satellite packets. Their version is not looked at.
use libpueorawdata.Prelude.{ℕ, ◌+◌, ◌%◌, ◌^◌}
use libpueorawdata.Prelude.Int.{ℤ}
use libpueorawdata.Prelude.Run.{Run, done, ◌>>=◌}
use libpueorawdata.Prelude.Memory.{Bytes, load}
use libpueorawdata.Formats.Base.{max_file_download_length}
use libpueorawdata.Crc.{crc16_start, crc16_continue}
use libpueorawdata.Datatype.{cmd_echo, file_download, logs, nav_sat, size_of, member_at}
use libpueorawdata.Handle.{Handle, Ops, put_bytes}
use libpueorawdata.Handle.Header.{Head, make_head}
use libpueorawdata.Packets.Counted.{
  cmd_len, download_len, logs_len, sats_len, read_two, clear_from, clear_array,
}

abbrev pub cmd_echo_data_length : ℕ
cmd_echo_data_length = 256

abbrev pub logs_buf_length : ℕ
logs_buf_length = 2048

unfoldable pub write_cmd_echo : {S : Type 0} → Ops S → Bytes → Handle S → Run (ℤ × Handle S)
write_cmd_echo ops p h =
    load 0 (member_at cmd_echo "data" + cmd_len p) p >>= λ bs. put_bytes ops bs h

unfoldable pub header_for_cmd_echo : Bytes → ℕ → Run Head
header_for_cmd_echo p ver = do
  let len = (member_at cmd_echo "data" + cmd_len p) % 2 ^ 32
  bs ← load 0 len p
  done (make_head cmd_echo ver (crc16_continue crc16_start bs) len)

unfoldable pub read_cmd_echo :
    {S : Type 0} → Ops S → Bytes → ℕ → Handle S → Run (ℤ × Bytes × Handle S)
read_cmd_echo ops p ver h = do
  (nrd, p, h) ← read_two ops (member_at cmd_echo "data") cmd_len p h
  p ← clear_array (member_at cmd_echo "data") cmd_echo_data_length (cmd_len p) p
  done (nrd, p, h)

unfoldable pub write_file_download : {S : Type 0} → Ops S → Bytes → Handle S → Run (ℤ × Handle S)
write_file_download ops p h =
    load 0 (member_at file_download "bytes" + download_len p) p >>= λ bs. put_bytes ops bs h

unfoldable pub header_for_file_download : Bytes → ℕ → Run Head
header_for_file_download p ver = do
  let len = (member_at file_download "bytes" + download_len p) % 2 ^ 32
  bs ← load 0 len p
  done (make_head file_download ver (crc16_continue crc16_start bs) len)

unfoldable pub read_file_download :
    {S : Type 0} → Ops S → Bytes → ℕ → Handle S → Run (ℤ × Bytes × Handle S)
read_file_download ops p ver h = do
  (nrd, p, h) ← read_two ops (member_at file_download "bytes") download_len p h
  p ← clear_array (member_at file_download "bytes") max_file_download_length (download_len p) p
  done (nrd, p, h)

unfoldable pub write_logs : {S : Type 0} → Ops S → Bytes → Handle S → Run (ℤ × Handle S)
write_logs ops p h = load 0 (member_at logs "buf" + logs_len p) p >>= λ bs. put_bytes ops bs h

unfoldable pub header_for_logs : Bytes → ℕ → Run Head
header_for_logs p ver = do
  let len = (member_at logs "buf" + logs_len p) % 2 ^ 32
  bs ← load 0 len p
  done (make_head logs ver (crc16_continue crc16_start bs) len)

unfoldable pub read_logs : {S : Type 0} → Ops S → Bytes → ℕ → Handle S → Run (ℤ × Bytes × Handle S)
read_logs ops p ver h = do
  (nrd, p, h) ← read_two ops (member_at logs "buf") logs_len p h
  p ← clear_array (member_at logs "buf") logs_buf_length (logs_len p) p
  done (nrd, p, h)

unfoldable pub write_nav_sat : {S : Type 0} → Ops S → Bytes → Handle S → Run (ℤ × Handle S)
write_nav_sat ops p h =
    load 0 (member_at nav_sat "sats" + sats_len p) p >>= λ bs. put_bytes ops bs h

unfoldable pub header_for_nav_sat : Bytes → ℕ → Run Head
header_for_nav_sat p ver = do
  let len = (member_at nav_sat "sats" + sats_len p) % 2 ^ 32
  bs ← load 0 len p
  done (make_head nav_sat ver (crc16_continue crc16_start bs) len)

unfoldable pub read_nav_sat :
    {S : Type 0} → Ops S → Bytes → ℕ → Handle S → Run (ℤ × Bytes × Handle S)
read_nav_sat ops p ver h = do
  (nrd, p, h) ← read_two ops (member_at nav_sat "sats") sats_len p h
  p ← clear_from nrd (size_of nav_sat) p
  done (nrd, p, h)
