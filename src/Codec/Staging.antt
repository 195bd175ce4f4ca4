-- ===== src/Codec/Staging.antt =====
-- Where the chunks of a batch stand in the input buffer.
use collapsar.Base.{
  ℕ, ◌+◌, ◌%◌, ◌^◌, ◌≤◌, ◌<◌, ◌≡◌, refl, ap, sym, subst, ◌∙◌, Bytes, List, [], ◌∷◌, ◌++◌,
  append_assoc, length, length-append, take, drop, arith,
}
use collapsar.Base.Slices.{take-append, drop-append}
use collapsar.Core.Blocks.{PlainBlock}
use collapsar.Codec.Nvcomp.{offsets_from, total_from}

-- The sources one after the other.
abbrev pub staged : List PlainBlock → Bytes
staged [] = []
staged (b ∷ bs) = b.source ++ staged bs

-- Each offset leads to its chunk, which ends within the room.
abbrev pub AreAt : Bytes → ℕ → List ℕ → List PlainBlock → Type 0
AreAt buffer room [] [] = Unit
AreAt buffer room (o ∷ offsets) (b ∷ bs) =
    (take (length b.source) (drop o buffer) ≡ b.source)
    × (o + length b.source ≤ room)
    × AreAt buffer room offsets bs
AreAt buffer room _ _ = ⊥

total_from-staged :
    (total : ℕ) (blocks : List PlainBlock)
    → total + length (staged blocks) < 2 ^ 64
    → total_from total blocks ≡ total + length (staged blocks)
unfolding total_from
total_from-staged total [] fits = omega arith
total_from-staged total (b ∷ bs) fits =
    let joined : length (staged (b ∷ bs)) ≡ length b.source + length (staged bs) =
      length-append b.source (staged bs) in
    let here : (total + length b.source) % 2 ^ 64 ≡ total + length b.source =
      omega (arith, fits, joined) in
    ap (λ t. total_from t bs) here
    ∙ total_from-staged (total + length b.source) bs (omega (arith, fits, joined))
    ∙ omega (arith, joined)

offsets_from-AreAt :
    (front : Bytes) (blocks : List PlainBlock)
    → length front + length (staged blocks) < 2 ^ 64
    → AreAt
        (front ++ staged blocks)
        (length front + length (staged blocks))
        (offsets_from (length front) blocks)
        blocks
unfolding offsets_from
offsets_from-AreAt front [] fits = tt
offsets_from-AreAt front (b ∷ bs) fits =
    let joined : length (staged (b ∷ bs)) ≡ length b.source + length (staged bs) =
      length-append b.source (staged bs) in
    let longer : length (front ++ b.source) ≡ length front + length b.source =
      length-append front b.source in
    let next : (length front + length b.source) % 2 ^ 64 ≡ length (front ++ b.source) =
      omega (arith, fits, joined, longer) in
    let room : length (front ++ b.source) + length (staged bs)
        ≡ length front + length (staged (b ∷ bs)) =
      omega (arith, joined, longer) in
    let rest = offsets_from-AreAt (front ++ b.source) bs (omega (arith, fits, joined, longer)) in
    (
      ap (take (length b.source)) (drop-append front (staged (b ∷ bs)) (length front) refl)
          ∙ take-append b.source (staged bs) (length b.source) refl,
      omega (arith, joined),
      subst
          (λ t.
            AreAt (front ++ staged (b ∷ bs)) (length front + length (staged (b ∷ bs)))
              (offsets_from t bs) bs)
          (sym next)
          (subst
            (λ r.
              AreAt (front ++ staged (b ∷ bs)) r (offsets_from (length (front ++ b.source)) bs) bs)
            room
            (subst
              (λ l.
                AreAt l (length (front ++ b.source) + length (staged bs))
                  (offsets_from (length (front ++ b.source)) bs) bs)
              (append_assoc front b.source (staged bs)) rest)),
    )

-- If the sources of a batch are together below 2^64 bytes, the offset of each chunk leads to its
-- source in a buffer with the sources one after the other, each chunk ends within the computed
-- total, and the total is their length.
pub offsets_from-total_from :
    (blocks : List PlainBlock)
    → length (staged blocks) < 2 ^ 64
    → AreAt (staged blocks) (total_from 0 blocks) (offsets_from 0 blocks) blocks
      × (total_from 0 blocks ≡ length (staged blocks))
offsets_from-total_from blocks fits =
    let below : 0 + length (staged blocks) < 2 ^ 64 = omega (arith, fits) in
    let total : total_from 0 blocks ≡ 0 + length (staged blocks) =
      total_from-staged 0 blocks below in
    (
      subst (λ r. AreAt (staged blocks) r (offsets_from 0 blocks) blocks) (sym total)
          (offsets_from-AreAt [] blocks below),
      omega (arith, total),
    )
