-- ===== src/VolumeStream/Offsets.antt =====
-- The offsets of the volumes in src/multi_volume_stream_base.cc, and the volume that an offset lies in.
use mathlib.Core.Path.{subst}
use archive_r.Base.{
  ℕ, zero, suc, ◌+◌, ◌-◌, ◌<◌, ◌≤◌, ◌≡◌, refl, ap, ◌∙◌, inl, inr, some, List, [], ◌∷◌, ◌++◌, ℤ, pos,
  ltb, length, drop, get_elem?, length-append, drop-append_le, arith, Bool-cases,
}
use archive_r.VolumeStream.Parts.{PartIo, Config}
use archive_r.VolumeStream.{single_part, upper_bound}
use archive_r.VolumeStream.Files.{Files, contents_from}

drop-append_within :
    {A : Type 0} (k : ℕ) (xs ys : List A) → k ≤ length xs → drop k (xs ++ ys) ≡ drop k xs ++ ys
drop-append_within zero xs ys h = refl
drop-append_within (suc k) [] ys h = absurd (omega arith)
drop-append_within (suc k) (x ∷ xs) ys h = drop-append_within k xs ys (omega arith)

module _ {B : Type 0} {io : PartIo B} (f : Files io) (c : Config) where
  open f use {content}

  abbrev pub part_length : ℕ → ℕ
  part_length index = length (content (single_part io c index))

  -- Where the volumes start, from `acc` on, and where the last one ends.
  unfoldable pub offsets : ℕ → ℕ → ℕ → List ℤ
  offsets zero index acc = pos acc ∷ []
  offsets (suc parts) index acc = pos acc ∷ offsets parts (suc index) (acc + part_length index)

  -- Offset `k` lies in volume `index + j`, which starts at `start`.
  pub record Located (parts index acc k : ℕ) : Type 0 where
    pub j : ℕ
    pub start : ℕ
    pub bound_lem : upper_bound io c (offsets parts index acc) (pos k) ≡ suc j
    pub start_lem : get_elem? (offsets parts index acc) j ≡ some (pos start)
    pub inside : j < parts
    pub above : start ≤ k
    pub within : k - start ≤ part_length (index + j)
    pub rest_lem :
        drop (k - acc) (contents_from f c parts index)
        ≡ drop (k - start) (content (single_part io c (index + j)))
          ++ contents_from f c (parts - suc j) (suc (index + j))

  bound_first :
      (parts index acc k : ℕ) → k < acc → upper_bound io c (offsets parts index acc) (pos k) ≡ 0
  unfolding upper_bound offsets
  bound_first zero index acc k h = ground arith
  bound_first (suc parts) index acc k h = ground arith

  first-Located :
      (parts index acc k : ℕ)
      → acc ≤ k
      → k < acc + part_length index
      → Located (suc parts) index acc k
  unfolding upper_bound offsets contents_from
  first-Located parts index acc k h g =
      let first : index + 0 ≡ index = omega arith in
      let rest : suc parts - 1 ≡ parts = omega arith in
      record {
        j = 0;
        start = acc;
        bound_lem = ground (arith, bound_first parts (suc index) (acc + part_length index) k g);
        start_lem = refl;
        inside = omega arith;
        above = h;
        within = rw first (omega (arith, g, h));
        rest_lem =
            rw (first, rest)
              (drop-append_within (k - acc) (content (single_part io c index))
                (contents_from f c parts (suc index)) (omega (arith, g, h)));
      }

  later-Located :
      (parts index acc k : ℕ)
      → acc + part_length index ≤ k
      → Located parts (suc index) (acc + part_length index) k
      → Located (suc parts) index acc k
  unfolding upper_bound offsets contents_from
  later-Located parts index acc k h next =
      let shift : suc index + next.j ≡ index + suc next.j = omega arith in
      let whole = content (single_part io c index) in
      record {
        j = suc next.j;
        start = next.start;
        bound_lem = ground (arith, h, next.bound_lem);
        start_lem = next.start_lem;
        inside = omega (arith, next.inside);
        above = next.above;
        within = subst (λ i. k - next.start ≤ part_length i) shift next.within;
        rest_lem =
            drop-append_le (k - acc) whole (contents_from f c parts (suc index)) (omega (arith, h))
            ∙ ap (λ n. drop n (contents_from f c parts (suc index))) (omega (arith, h))
            ∙ next.rest_lem
            ∙ ap
                (λ i.
                  drop (k - next.start) (content (single_part io c i))
                  ++ contents_from f c (parts - suc next.j) (suc i))
                shift
            ∙ ap
                (λ n.
                  drop (k - next.start) (content (single_part io c (index + suc next.j)))
                  ++ contents_from f c n (suc (index + suc next.j)))
                (omega arith);
      }

  pub locate_lem :
      (parts index acc k : ℕ)
      → acc ≤ k
      → k < acc + length (contents_from f c parts index)
      → Located parts index acc k
  unfolding upper_bound offsets contents_from
  locate_lem zero index acc k h g = absurd (omega arith)
  locate_lem (suc parts) index acc k h g = elim (Bool-cases (ltb k (acc + part_length index))) [
    | inl here ↦ first-Located parts index acc k h (ground arith)
    | inr later ↦ later-Located parts index acc k (ground arith) (
        locate_lem parts (suc index) (acc + part_length index) k (ground arith) (
          omega (
            arith,
            length-append (content (single_part io c index)) (contents_from f c parts (suc index)),
          )))
  ]
