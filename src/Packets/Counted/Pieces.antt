-- ===== src/Packets/Counted/Pieces.antt =====
-- Reading a counted packet over a file, for every such packet type: the front `as` says that the
-- array has the bytes `bs`.
use libpueorawdata.Prelude.{
  le→ltb, ℕ, ◌+◌, ◌-◌, ◌≤◌, ◌≡◌, refl, ap, ◌∙◌, ◌++◌, length, drop, arith, length-append,
  length-drop, append_assoc,
}
use libpueorawdata.Prelude.Int.{pos}
use libpueorawdata.Prelude.Run.{done}
use libpueorawdata.Prelude.Memory.{Bytes, zeros, load, clear}
use libpueorawdata.Prelude.Memory.Pieces.{load_front, store_front, store_piece, clear_piece}
use libpueorawdata.Handle.{Handle}
use libpueorawdata.Handle.File.{File, file_ops, left, get_bytes-file}
use libpueorawdata.Packets.Counted.{read_two, clear_array}

module _ (at : ℕ) (count : Bytes → ℕ) (fs bs : Bytes) (front : length fs ≡ at)
    (counted : (x : Bytes) → count (fs ++ x) ≡ length bs) where
  -- What the two reads leave behind the array's bytes of the object `q`.
  abbrev pub behind : Bytes → Bytes
  behind q = drop (length bs) (drop at q)

  pub read_two-file :
      (q rest : Bytes) (h : Handle File)
      → at + length bs ≤ length q
      → h.aux.unread ≡ (fs ++ bs) ++ rest
      → read_two file_ops at count q h
        ≡ done (pos (length (fs ++ bs)), (fs ++ bs) ++ behind q, left rest h)
  unfolding read_two
  read_two-file q rest h fits u =
      let room : length bs ≤ length (drop at q) = omega (arith, length-drop at q) in
      let total : at + length bs ≡ length (fs ++ bs) = omega (arith, length-append fs bs) in
      rw (
        get_bytes-file at 0 q fs (bs ++ rest) h front (u ∙ append_assoc fs bs rest),
        store_front fs q (omega arith),
        front,
        counted (drop at q),
        get_bytes-file (length bs) at (fs ++ drop at q) bs rest (left (bs ++ rest) h) refl refl,
        store_piece at fs bs (drop at q) front room,
        total,
        append_assoc fs bs (behind q),
      )

  -- The object after `n` bytes behind the array were cleared.
  abbrev pub cleared : ℕ → Bytes → Bytes
  cleared n q = (fs ++ bs) ++ (zeros n ++ drop n (behind q))

  pub clear-behind :
      (n : ℕ) (q : Bytes)
      → at + length bs + n ≤ length q
      → clear (at + length bs) n ((fs ++ bs) ++ behind q) ≡ done (cleared n q)
  clear-behind n q fits =
      clear_piece (at + length bs) n (fs ++ bs) (behind q) (omega (arith, length-append fs bs))
        (omega (arith, length-drop (length bs) (drop at q), length-drop at q))

  pub clear_array-behind :
      (size : ℕ) (q : Bytes)
      → length bs ≤ size
      → at + size ≤ length q
      → clear_array at size (length bs) ((fs ++ bs) ++ behind q)
        ≡ done (cleared (size - length bs) q)
  unfolding clear_array
  clear_array-behind size q within fits =
      rw (clear_array, le→ltb size (length bs) within)
        (clear-behind (size - length bs) q (omega arith))

  pub count_whole : (x : Bytes) → count ((fs ++ bs) ++ x) ≡ length bs
  count_whole x = ap count (append_assoc fs bs x) ∙ counted (bs ++ x)

  pub load_whole :
      (n : ℕ) (x : Bytes) → n ≡ at + length bs → load 0 n ((fs ++ bs) ++ x) ≡ done (fs ++ bs)
  load_whole n x e = load_front n (fs ++ bs) x (omega (arith, length-append fs bs))
