-- ===== src/Prelude/Memory/Pieces.antt =====
-- Memory in pieces: what a load, a store and a `memset` do to an object that is cut at the offset.
use Prim.Native.Nat.{ℕ, ◌+◌, ◌≤◌}
use mathlib.Core.Path.{◌≡◌, sym, ap, ◌∙◌}
use mathlib.Core.List.{◌++◌}
use native.Mathlib.Nat.{add_assoc}
use native.Mathlib.Omega.{arith}
use libpueorawdata.Prelude.Tests.{le→leb}
use libpueorawdata.Prelude.Lists.{
  length, take, drop, length-append, length-replicate, length-take, take-append-drop,
  take-append_of_length, drop-append_of_length, drop-drop, get_or, get_or-append_right,
  get_or-append,
}
use libpueorawdata.Prelude.Run.{done}
use libpueorawdata.Prelude.Memory.{Bytes, u8_at, u16_at, zeros, load, store, clear}

pub load_inside :
    (off n : ℕ) (m : Bytes) → off + n ≤ length m → load off n m ≡ done (take n (drop off m))
unfolding load
load_inside off n m h = rw (le→leb (off + n) (length m) h)

-- The piece between two others.
pub load_piece :
    (off n : ℕ) (front bs rest : Bytes)
    → length front ≡ off
    → length bs ≡ n
    → load off n (front ++ (bs ++ rest)) ≡ done bs
load_piece off n front bs rest e f =
    load_inside off n (front ++ (bs ++ rest))
      (omega (arith, length-append front (bs ++ rest), length-append bs rest))
    ∙ ap done (
        ap (take n) (drop-append_of_length off front (bs ++ rest) e)
        ∙ take-append_of_length n bs rest f)

pub load_front : (n : ℕ) (bs rest : Bytes) → length bs ≡ n → load 0 n (bs ++ rest) ≡ done bs
load_front n bs rest e =
    load_inside 0 n (bs ++ rest) (omega (arith, length-append bs rest))
    ∙ ap done (take-append_of_length n bs rest e)

-- A store behind `front` replaces the start of what stands there.
pub store_piece :
    (off : ℕ) (front bs rest : Bytes)
    → length front ≡ off
    → length bs ≤ length rest
    → store off bs (front ++ rest) ≡ done (front ++ (bs ++ drop (length bs) rest))
unfolding store
store_piece off front bs rest e h =
    rw (le→leb (off + length bs) (length (front ++ rest)) (omega (arith, length-append front rest)))
      (rw (take-append_of_length off front rest e) (
        rw (← drop-drop off (length bs) (front ++ rest))
          (rw (drop-append_of_length off front rest e))))

pub store_front :
    (bs m : Bytes) → length bs ≤ length m → store 0 bs m ≡ done (bs ++ drop (length bs) m)
unfolding store
store_front bs m h =
    rw (le→leb (0 + length bs) (length m) (omega arith))
      (ap done (ap (λ k. bs ++ drop k m) zero_plus))
  where
    zero_plus : 0 + length bs ≡ length bs
    zero_plus = omega arith

pub clear_piece :
    (off n : ℕ) (front rest : Bytes)
    → length front ≡ off
    → n ≤ length rest
    → clear off n (front ++ rest) ≡ done (front ++ (zeros n ++ drop n rest))
unfolding clear
clear_piece off n front rest e h =
    store_piece off front (zeros n) rest e (omega (arith, length-replicate {A = ℕ} n 0))
    ∙ ap (λ k. done (front ++ (zeros n ++ drop k rest))) (length-replicate {A = ℕ} n 0)

-- A member inside the first piece.
pub u8_at-append : (i : ℕ) (xs ys : Bytes) → i + 1 ≤ length xs → u8_at (xs ++ ys) i ≡ u8_at xs i
u8_at-append i xs ys h = get_or-append i xs ys 0 (omega arith)

pub u16_at-append : (i : ℕ) (xs ys : Bytes) → i + 2 ≤ length xs → u16_at (xs ++ ys) i ≡ u16_at xs i
u16_at-append i xs ys h =
    omega
      (arith, get_or-append i xs ys 0 (omega arith), get_or-append (i + 1) xs ys 0 (omega arith))

-- A member inside the first bytes of an object, when only those are known.
pub u8_at-front :
    (n i : ℕ) (p x : Bytes) → i + 1 ≤ n → n ≤ length p → u8_at (take n p ++ x) i ≡ u8_at p i
u8_at-front n i p x h fits =
    let len : length (take n p) ≡ n = omega (arith, length-take n p) in
    u8_at-append i (take n p) x (omega arith)
    ∙ (sym (u8_at-append i (take n p) (drop n p) (omega arith))
        ∙ ap (λ t. u8_at t i) (take-append-drop n p))

pub u16_at-front :
    (n i : ℕ) (p x : Bytes) → i + 2 ≤ n → n ≤ length p → u16_at (take n p ++ x) i ≡ u16_at p i
u16_at-front n i p x h fits =
    omega
      (arith, u8_at-front n i p x (omega arith) fits, u8_at-front n (i + 1) p x (omega arith) fits)

-- A member behind a piece.
pub u16_at-behind :
    (off i : ℕ) (front m : Bytes) → length front ≡ off → u16_at (front ++ m) (off + i) ≡ u16_at m i
u16_at-behind off i front m e = rw (← e) (
    omega (
      arith,
      get_or-append_right i front m 0,
      get_or-append_right (i + 1) front m 0,
      ap (λ k. get_or (front ++ m) k 0) (add_assoc (length front) i 1),
    ))
