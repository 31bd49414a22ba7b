-- ===== src/Continuity/Receiver/Segments.antt =====
-- Segments as parts of the stream that the sender reads.
use mathlib.Core.List.{append_assoc, append-nil}
use route_harbor.Prelude.{
  ℕ, suc, ◌+◌, ◌-◌, ◌≤◌, ◌<◌, ◌≡◌, refl, sym, ap, subst, ◌∙◌, true, false, List, [], ◌∷◌, ◌++◌,
  some, arith, ltb, ◌==◌, length, take, drop, All, length-append, length-take, take-length-append,
  take-append-drop, Bool-cases, inl, inr,
}
use route_harbor.Continuity.Receiver.{Segment, cost, find_at, remove_at, cut}

-- The bytes stand in the stream at that offset.
pub record IsPart (stream : List ℕ) (offset : ℕ) (bytes : List ℕ) : Type 0 where
  pub before : List ℕ
  pub after : List ℕ
  pub joined : stream ≡ before ++ (bytes ++ after)
  pub place : length before ≡ offset

abbrev pub IsFrom : List ℕ → Segment → Type 0
IsFrom stream s = IsPart stream s.offset s.payload

abbrev pub costs : List Segment → ℕ
costs [] = 0
costs (s ∷ ss) = cost s + costs ss

abbrev pub bytes_of : List Segment → List ℕ
bytes_of [] = []
bytes_of (s ∷ ss) = s.payload ++ bytes_of ss

take-append :
    (before bytes after : List ℕ)
    → take (length before) (before ++ (bytes ++ after)) ++ bytes
      ≡ take (length before + length bytes) (before ++ (bytes ++ after))
take-append before bytes after =
    ap (λ b. b ++ bytes) (take-length-append before (bytes ++ after))
    ∙ sym (take-length-append (before ++ bytes) after)
    ∙ ap (take (length (before ++ bytes))) (append_assoc before bytes after)
    ∙ ap (λ m. take m (before ++ (bytes ++ after))) (length-append before bytes)

pub take-IsPart :
    (stream : List ℕ) (n : ℕ) (bytes : List ℕ)
    → IsPart stream n bytes
    → take n stream ++ bytes ≡ take (n + length bytes) stream
take-IsPart stream n bytes p = rw (sym p.place, p.joined) (take-append p.before bytes p.after)

pub drop-IsPart :
    (stream : List ℕ) (n k : ℕ) (bytes : List ℕ)
    → k ≤ length bytes
    → IsPart stream n bytes
    → IsPart stream (n + k) (drop k bytes)
drop-IsPart stream n k bytes h p = record {
  before = p.before ++ take k bytes;
  after = p.after;
  joined =
      p.joined
      ∙ ap (λ b. p.before ++ (b ++ p.after)) (sym (take-append-drop k bytes))
      ∙ ap (λ b. p.before ++ b) (append_assoc (take k bytes) (drop k bytes) p.after)
      ∙ sym (append_assoc p.before (take k bytes) (drop k bytes ++ p.after));
  place = length-append p.before (take k bytes) ∙ omega (arith, p.place, length-take k bytes h);
}

pub cut-IsFrom :
    (stream : List ℕ) (n : ℕ) (s : Segment)
    → n < s.offset + length s.payload
    → IsFrom stream s
    → IsFrom stream (cut n s)
cut-IsFrom stream n s h p = elim (Bool-cases (ltb s.offset n)) [
  | inl b ↦ rw b (
      subst (λ m. IsPart stream m (drop (n - s.offset) s.payload)) (ground (arith, b))
        (drop-IsPart stream s.offset (n - s.offset) s.payload (omega (arith, h)) p))
  | inr b ↦ rw b p
]

pub record Found (stream : List ℕ) (n : ℕ) (ss : List Segment) (s : Segment) : Type 0 where
  pub at : s.offset ≡ n
  pub part : IsFrom stream s
  pub rest : All (IsFrom stream) (remove_at n ss)
  pub total : costs ss ≡ cost s + costs (remove_at n ss)
  pub fewer : length ss ≡ suc (length (remove_at n ss))

head-Found :
    (stream : List ℕ) (n : ℕ) (x : Segment) (ss : List Segment) (s : Segment)
    → All (IsFrom stream) (x ∷ ss)
    → (x.offset == n) ≡ true
    → x ≡ s
    → Found stream n (x ∷ ss) s
head-Found stream n x ss s h b e = subst (Found stream n (x ∷ ss)) e (record {
  at = ground (arith, b);
  part = h.0;
  rest = rw b (h.1);
  total = rw b refl;
  fewer = rw b refl;
})

tail-Found :
    (stream : List ℕ) (n : ℕ) (x : Segment) (ss : List Segment) (s : Segment)
    → All (IsFrom stream) (x ∷ ss)
    → (x.offset == n) ≡ false
    → Found stream n ss s
    → Found stream n (x ∷ ss) s
tail-Found stream n x ss s h b f = record {
  at = f.at;
  part = f.part;
  rest = rw b (h.0, f.rest);
  total = rw b (omega (arith, f.total));
  fewer = rw b (ap suc f.fewer);
}

pub find_at-Found :
    (stream : List ℕ) (n : ℕ) (ss : List Segment) (s : Segment)
    → All (IsFrom stream) ss
    → find_at n ss ≡ some s
    → Found stream n ss s
find_at-Found stream n [] s h e = absurd (ground (arith, e))
find_at-Found stream n (x ∷ ss) s h e = elim (Bool-cases (x.offset == n)) [
  | inl b ↦ head-Found stream n x ss s h b (ground (arith, e, b))
  | inr b ↦ tail-Found stream n x ss s h b (find_at-Found stream n ss s h.1 (ground (arith, e, b)))
]

pub bytes_of-append :
    (ss : List Segment) (s : Segment) → bytes_of (ss ++ (s ∷ [])) ≡ bytes_of ss ++ s.payload
bytes_of-append [] s = append-nil s.payload
bytes_of-append (x ∷ ss) s =
    ap (λ b. x.payload ++ b) (bytes_of-append ss s)
    ∙ sym (append_assoc x.payload (bytes_of ss) s.payload)

pub costs-append : (ss : List Segment) (s : Segment) → costs (ss ++ (s ∷ [])) ≡ costs ss + cost s
costs-append [] s = omega arith
costs-append (x ∷ ss) s = omega (arith, costs-append ss s)
