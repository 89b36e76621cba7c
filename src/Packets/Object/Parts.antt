-- ===== src/Packets/Object/Parts.antt =====
-- An object taken apart: its front, its counted array, and the rest.
use libpueorawdata.Prelude.{
  ℕ, ◌+◌, ◌*◌, ◌≤◌, ◌≡◌, ap, ap₂, ◌∙◌, ◌++◌, length, take, drop, arith, length-take, length-drop,
  take-append-drop, take-add,
}
use libpueorawdata.Prelude.Memory.{Bytes}
use libpueorawdata.Prelude.Memory.Pieces.{u8_at-front, u16_at-front}
use libpueorawdata.Datatype.{
  sensors_disk, sensors_telem, cmd_echo, file_download, logs, nav_sat, size_of, member_at,
}
use libpueorawdata.Packets.Counted.{
  num_disk, num_telem, cmd_len, download_len, logs_len, sats_len, sat_size,
}

pub length-take_within : (n : ℕ) (p : Bytes) → n ≤ length p → length (take n p) ≡ n
length-take_within n p h = omega (arith, length-take n p)

module _ (at n : ℕ) (p : Bytes) (fits : at + n ≤ length p) where
  pub front-length : length (take at p) ≡ at
  front-length = length-take_within at p (omega arith)

  pub array-length : length (take n (drop at p)) ≡ n
  array-length = length-take_within n (drop at p) (omega (arith, length-drop at p))

  pub whole : (take at p ++ take n (drop at p)) ++ drop (at + n) p ≡ p
  whole = ap (λ t. t ++ drop (at + n) p) (take-add at n p) ∙ take-append-drop (at + n) p

-- The count stands in the front.
pub cmd_len-front :
    (p x : Bytes)
    → length p ≡ size_of cmd_echo
    → cmd_len (take (member_at cmd_echo "data") p ++ x) ≡ cmd_len p
unfolding cmd_len member_at size_of
cmd_len-front p x e =
    ap (λ t. t + 1)
      (u8_at-front (member_at cmd_echo "data") (member_at cmd_echo "len_m1") p x (omega arith)
        (omega arith))

pub download_len-front :
    (p x : Bytes)
    → length p ≡ size_of file_download
    → download_len (take (member_at file_download "bytes") p ++ x) ≡ download_len p
unfolding download_len member_at size_of
download_len-front p x e =
    u16_at-front (member_at file_download "bytes") (member_at file_download "len") p x (omega arith)
      (omega arith)

pub logs_len-front :
    (p x : Bytes)
    → length p ≡ size_of logs
    → logs_len (take (member_at logs "buf") p ++ x) ≡ logs_len p
unfolding logs_len member_at size_of
logs_len-front p x e =
    let at = member_at logs "buf" in
    ap₂ (λ a b. a + b)
      (ap₂ (λ a b. a + b)
        (u8_at-front at (member_at logs "daemon_len") p x (omega arith) (omega arith))
        (u8_at-front at (member_at logs "grep_len") p x (omega arith) (omega arith)))
      (u16_at-front at (member_at logs "msg_len") p x (omega arith) (omega arith))

pub sats_len-front :
    (p x : Bytes)
    → length p ≡ size_of nav_sat
    → sats_len (take (member_at nav_sat "sats") p ++ x) ≡ sats_len p
unfolding sats_len member_at size_of
sats_len-front p x e =
    ap (λ t. t * sat_size)
      (u8_at-front (member_at nav_sat "sats") (member_at nav_sat "nsats_visible") p x (omega arith)
        (omega arith))

pub num_disk-front :
    (p x : Bytes)
    → length p ≡ size_of sensors_disk
    → num_disk (take (member_at sensors_disk "sensors") p ++ x) ≡ num_disk p
unfolding num_disk member_at size_of
num_disk-front p x e =
    u16_at-front (member_at sensors_disk "sensors") (member_at sensors_disk "num_packets") p x
      (omega arith) (omega arith)

pub num_telem-front :
    (p x : Bytes)
    → length p ≡ size_of sensors_telem
    → num_telem (take (member_at sensors_telem "sensors") p ++ x) ≡ num_telem p
unfolding num_telem member_at size_of
num_telem-front p x e =
    u16_at-front (member_at sensors_telem "sensors") (member_at sensors_telem "num_packets") p x
      (omega arith) (omega arith)
