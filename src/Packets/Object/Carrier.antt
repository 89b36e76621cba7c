-- ===== src/Packets/Object/Carrier.antt =====
-- What the payload of an object is to the object, and that the structs that are written whole are
-- their own payloads.
use libpueorawdata.Prelude.{◌-◌, ◌≡◌, sym, ap, ◌∙◌, ◌++◌, length, arith, subst, true, append-nil}
use libpueorawdata.Prelude.Int.{pos}
use libpueorawdata.Prelude.Memory.{Bytes, zeros}
use libpueorawdata.Datatype.{Kind, size_of, latest_version}
use libpueorawdata.Versions.Bounds.{packet_size-latest}
use libpueorawdata.Packets.Simple.Laws.{is_simple, zero_filled, simple-Reads, simple-Writes}
use libpueorawdata.Packets.Codec.{Reads, Writes}

-- `bs` is written for the object `p`, makes `result q` of an object `q`, and is written again for
-- what it made.
pub record Carries (k : Kind) (p bs : Bytes) (result : Bytes → Bytes) : Type 0 where
  pub writes : Writes k p bs
  pub reads : Reads k (latest_version k) bs result
  pub writes_again : (q : Bytes) → length q ≡ size_of k → Writes k (result q) bs

pub simple-Carries :
    (k : Kind) (p : Bytes) → is_simple k ≡ true → length p ≡ size_of k → Carries k p p (λ _. p)
simple-Carries k p simple e =
    let none_left : size_of k - length p ≡ 0 = omega arith in
    let full : zero_filled k p ≡ p = ap (λ n. p ++ zeros n) none_left ∙ append-nil p in
    record {
      writes = simple-Writes k p simple e;
      reads =
          subst (λ t. Reads k (latest_version k) p (λ _. t)) full
            (simple-Reads k (latest_version k) p simple (packet_size-latest k ∙ ap pos (sym e))
              (omega arith));
      writes_again = λ q _. simple-Writes k p simple e;
    }
