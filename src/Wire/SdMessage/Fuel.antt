-- ===== src/Wire/SdMessage/Fuel.antt =====
-- The fuel of the loops of `parse`: more of it makes no difference.
use recentip.Prelude.{
  ℕ, zero, suc, ◌+◌, ◌*◌, ◌<◌, ◌≡◌, refl, List, [], ◌∷◌, ◌++◌, arith, Option-cases, inl, inr,
}
use recentip.Buffer.{ByteBuffer}
use recentip.Wire.SdEntry
use recentip.Wire.SdEntry.{SdEntry}
use recentip.Wire.SdMessage.{parse_entries}

module _ ⦃bytes : ByteBuffer⦄ where
  -- Any two amounts of fuel, each with a round for every 16 bytes of the entries that are not yet
  -- consumed, give the same result of the entries' loop.
  parse_entries_enough :
      (m n len consumed : ℕ) (b : List ℕ) (done : List SdEntry)
      → len < consumed + 16 * (m + 1)
      → len < consumed + 16 * (n + 1)
      → parse_entries m len consumed b done ≡ parse_entries n len consumed b done
  unfolding parse_entries
  parse_entries_enough zero zero len consumed b done hm hn = refl
  parse_entries_enough zero (suc n) len consumed b done hm hn = ground arith
  parse_entries_enough (suc m) zero len consumed b done hm hn = ground arith
  parse_entries_enough (suc m) (suc n) len consumed b done hm hn =
      elim (Option-cases (SdEntry.parse b)) [
        | inl bad ↦ rw bad refl
        | inr ((e, b'), good) ↦
            rw
              (
                good,
                parse_entries_enough m n len (consumed + 16) b' (done ++ e ∷ []) (omega arith)
                    (omega arith),
              )
              refl
      ]
