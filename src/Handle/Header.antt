-- ===== src/Handle/Header.antt =====
-- `pueo_packet_head_t`: the eight bytes in front of every packet.
use libpueorawdata.Prelude.{ℕ, ◌+◌, ◌*◌, ◌/◌, ◌%◌, ◌^◌, ◌<◌, ◌≡◌, refl, [], ◌∷◌, length, arith}
use libpueorawdata.Prelude.Memory.{Bytes, u8_at, u16_at}
use libpueorawdata.Datatype.{Kind, code}

pub record Head : Type 0 where
  pub type : ℕ
  pub cksum : ℕ
  pub f1 : ℕ
  pub version : ℕ
  pub num_bytes : ℕ

-- The bytes of a header whose members fit their widths: `f1`, `version` and `num_bytes` share a
-- 32-bit word, from its low bits on.
unfoldable pub encode_head : Head → Bytes
encode_head hd =
    (hd.type % 256)
    ∷ (hd.type / 256)
    ∷ (hd.cksum % 256)
    ∷ (hd.cksum / 256)
    ∷ hd.f1
    ∷ (hd.version + 16 * (hd.num_bytes % 16))
    ∷ (hd.num_bytes / 16 % 256)
    ∷ (hd.num_bytes / 4096)
    ∷ []

-- The members that eight bytes stand for.
unfoldable pub decode_head : Bytes → Head
decode_head m = record {
  type = u16_at m 0;
  cksum = u16_at m 2;
  f1 = u8_at m 4;
  version = u8_at m 5 % 16;
  num_bytes = u8_at m 5 / 16 + 16 * u8_at m 6 + 4096 * u8_at m 7;
}

-- The designated initialisers of `pueo_packet_header_for_X`; a bit-field keeps its low bits.
unfoldable pub make_head : Kind → ℕ → ℕ → ℕ → Head
make_head k ver cksum num_bytes = record {
  type = code k;
  cksum = cksum;
  f1 = 0xf1;
  version = ver % 16;
  num_bytes = num_bytes % 2 ^ 20;
}

pub record IsHead (hd : Head) : Type 0 where
  pub type_fits : hd.type < 65536
  pub cksum_fits : hd.cksum < 65536
  pub f1_fits : hd.f1 < 256
  pub version_fits : hd.version < 16
  pub num_bytes_fits : hd.num_bytes < 2 ^ 20

-- A header whose members fit their widths is read back from its eight bytes.
pub decode_head-encode_head : (hd : Head) → IsHead hd → decode_head (encode_head hd) ≡ hd
unfolding decode_head encode_head
decode_head-encode_head hd v = ground arith

pub length-encode_head : (hd : Head) → length (encode_head hd) ≡ 8
unfolding encode_head
length-encode_head hd = refl
