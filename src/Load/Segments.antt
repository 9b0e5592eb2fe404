-- ===== src/Load/Segments.antt =====
-- Data segments of cpp/m3_env.c: where `InitDataSegments` writes, and what memory holds after it.
use react_native_webassembly.Common.{
  ap, subst, ℕ, ◌+◌, ◌-◌, ◌≤◌, ◌≡◌, refl, ◌∙◌, arith, ◌&&◌, Option, none, some, List, [], ◌∷◌, ltb,
  leb, if◌then◌else◌, get_or, take,
}
use react_native_webassembly.Results.{
  Result, ok, err, ◌>>=◌, and_then-by, Holds, holds_ok, holds_err, Holds-of, Holds-if, Holds-value,
}
use react_native_webassembly.Core.Read.{Bytes}
use react_native_webassembly.Core.ValueType.{type_i32}
use react_native_webassembly.Runtime.{Block}
use react_native_webassembly.Module.{Module, DataSegment}
use react_native_webassembly.Load.{is_negative, place_segment, init_data_segment, store_segments}

-- The same block, and the same bytes past its length.
pub record Within (before after : Block) : Type 0 where
  pub address : after.address ≡ before.address
  pub sized : after.length ≡ before.length
  pub behind : (i : ℕ) → before.length ≤ i → after.cells i ≡ before.cells i

Within-refl : (b : Block) → Within b b
Within-refl b = record { address = refl; sized = refl; behind = λ i h. refl }

-- What a segment holds for the byte at `i`.
abbrev pub byte_of : DataSegment → Result (ℕ × Bytes) → ℕ → Option ℕ
byte_of segment (err e) i = none
byte_of segment (ok (offset, rest)) i =
    if leb offset i && ltb i (offset + segment.size)
    then some (get_or segment.bytes (i - offset) 0)
    else none

abbrev pub or_else : Option ℕ → Option ℕ → Option ℕ
or_else (some v) later = some v
or_else none later = later

abbrev pub byte_or : ℕ → Option ℕ → ℕ
byte_or default none = default
byte_or default (some v) = v

or_else-byte_or :
    (original : ℕ) (first later : Option ℕ)
    → byte_or (byte_or original first) later ≡ byte_or original (or_else later first)
or_else-byte_or original first none = refl
or_else-byte_or original first (some v) = refl

Within-trans : {a b c : Block} → Within a b → Within b c → Within a c
Within-trans h k = record {
  address = k.address ∙ h.address;
  sized = k.sized ∙ h.sized;
  behind = λ i past. k.behind i (omega (arith, past, h.sized)) ∙ h.behind i past;
}

module _ (evaluate : Module → ℕ → Bytes → Result (ℕ × Bytes)) (m : Module) where
  -- Where a segment lies, if its offset can be evaluated.
  abbrev pub offset_of : DataSegment → Result (ℕ × Bytes)
  offset_of segment = evaluate m type_i32 (take segment.init_expr_size segment.init_expr)

  -- The byte at `i` in the last of the segments that covers it.
  abbrev pub last_byte : List DataSegment → ℕ → Option ℕ
  last_byte [] i = none
  last_byte (segment ∷ segments) i =
      or_else (last_byte segments i) (byte_of segment (offset_of segment) i)

  abbrev One : DataSegment → Block → Result (ℕ × Bytes) → Block → Type 0
  One segment block at block' =
      Within block block'
      × ((i : ℕ) → block'.cells i ≡ byte_or (block.cells i) (byte_of segment at i))

  place_segment-One :
      (segment : DataSegment) (block : Block) (offset : ℕ) (rest : Bytes)
      → Holds (One segment block (ok (offset, rest))) (place_segment segment block offset)
  unfolding place_segment
  place_segment-One segment block offset rest =
      Holds-if (is_negative offset) (λ e. holds_err)
        (λ e.
          Holds-if (leb (offset + segment.size) block.length)
            (λ fits. holds_ok (
              record { address = refl; sized = refl; behind = λ i h. ground arith },
              λ i. ground arith,
            ))
            (λ e. holds_err))

  init_data_segment-One :
      (segment : DataSegment) (block : Block)
      → Holds (One segment block (offset_of segment)) (init_data_segment evaluate m segment block)
  unfolding init_data_segment
  init_data_segment-One segment block = go (offset_of segment)
    where
      go :
          (at : Result (ℕ × Bytes))
          → Holds
              (One segment block at)
              (at >>= λ (offset, rest). place_segment segment block offset)
      go (err e) = holds_err
      go (ok (offset, rest)) = place_segment-One segment block offset rest

  -- What the loop makes of the block, and the bytes when it succeeds.
  abbrev Stored : List DataSegment → Block → Block × Result (Unit {0}) → Type 0
  Stored segments block out =
      Within block out.0
      × Holds (λ u. (i : ℕ) → out.0.cells i ≡ byte_or (block.cells i) (last_byte segments i)) out.1

  store_segments-Stored :
      (segments : List DataSegment) (block : Block)
      → Stored segments block (store_segments evaluate m segments block)
  unfolding store_segments
  store_segments-Stored [] block = (Within-refl block, holds_ok (λ i. refl))
  store_segments-Stored (segment ∷ segments) block =
      and_then-by (Stored (segment ∷ segments) block) block
        (init_data_segment evaluate m segment block) (λ e. (Within-refl block, holds_err))
        (λ block' e.
          let (here, bytes) =
            Holds-value (One segment block (offset_of segment))
              (init_data_segment evaluate m segment block) (init_data_segment-One segment block)
              e in
          let (later, done) = store_segments-Stored segments block' in
          let out = store_segments evaluate m segments block' in
          (
            Within-trans here later,
            Holds-of
                (λ u.
                  (i : ℕ)
                  → out.0.cells i ≡ byte_or (block.cells i) (last_byte (segment ∷ segments) i))
                out.1
                (λ u k i.
                  Holds-value
                    (λ u. (i : ℕ) → out.0.cells i ≡ byte_or (block'.cells i) (last_byte segments i))
                    out.1 done k i
                  ∙ ap (λ v. byte_or v (last_byte segments i)) (bytes i)
                  ∙ or_else-byte_or (block.cells i) (byte_of segment (offset_of segment) i)
                      (last_byte segments i)),
          ))

  pub store_segments-Within :
      (segments : List DataSegment) (block : Block)
      → Within block (store_segments evaluate m segments block).0
  store_segments-Within segments block = (store_segments-Stored segments block).0

  -- Whatever the segments are and wherever one fails, `InitDataSegments` leaves the address and the
  -- length of memory, and writes no byte at or past the length.
  pub store_segments_in_bounds :
      (segments : List DataSegment) (block : Block) (i : ℕ)
      → block.length ≤ i
      → let block' = (store_segments evaluate m segments block).0 in
        (block'.address ≡ block.address)
        × (block'.length ≡ block.length)
        × (block'.cells i ≡ block.cells i)
  store_segments_in_bounds segments block i past =
      let w = store_segments-Within segments block in (w.address, w.sized, w.behind i past)

  -- When `InitDataSegments` succeeds, each byte is that of the last segment that covers it, or as
  -- before where none does.
  pub store_segments-last_byte :
      (segments : List DataSegment) (block block' : Block) (i : ℕ)
      → store_segments evaluate m segments block ≡ (block', ok tt)
      → block'.cells i ≡ byte_or (block.cells i) (last_byte segments i)
  store_segments-last_byte segments block block' i e =
      let (w, done) = subst (Stored segments block) e (store_segments-Stored segments block) in
      Holds-value (λ u. (i : ℕ) → block'.cells i ≡ byte_or (block.cells i) (last_byte segments i))
        (ok tt) done refl i
