-- ===== src/Tests/Sample.antt =====
-- Packets that the tests share.
use libpueorawdata.Prelude.{ℕ, zero, suc, ◌%◌, ◌≡◌, refl, ap, [], ◌∷◌, length, arith}
use libpueorawdata.Prelude.Memory.{Bytes}
use libpueorawdata.Datatype.{cmd_echo, nav_att, size_of, member_at}
use libpueorawdata.Packets.Counted.{cmd_len}
use libpueorawdata.Packets.Object.{IsObject}

-- The bytes n - 1, n - 2, …, 0.
abbrev pub countdown : ℕ → Bytes
countdown zero = []
countdown (suc n) = n % 256 ∷ countdown n

length-countdown : (n : ℕ) → length (countdown n) ≡ n
length-countdown zero = refl
length-countdown (suc n) = ap suc (length-countdown n)

abbrev pub sample_cmd_echo : Bytes
sample_cmd_echo = countdown (size_of cmd_echo)

pub sample_cmd_echo-IsObject : IsObject cmd_echo sample_cmd_echo
unfolding cmd_len member_at size_of
sample_cmd_echo-IsObject = record {
  object_size = length-countdown (size_of cmd_echo);
  array_fits = omega arith;
}

abbrev pub sample_nav_att : Bytes
sample_nav_att = countdown (size_of nav_att)

pub sample_nav_att-IsObject : IsObject nav_att sample_nav_att
sample_nav_att-IsObject = record {
  object_size = length-countdown (size_of nav_att);
  array_fits = tt;
}
