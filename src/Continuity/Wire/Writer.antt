-- ===== src/Continuity/Wire/Writer.antt =====
-- `writeAll` of wire.go over an `io.Writer`, which is a parameter: `write s b` gives the writer's
-- next state, the number of bytes it took and whether it returned an error.
use mathlib.Core.List.{append_assoc, append-nil}
use route_harbor.Prelude.{
  ℕ, zero, suc, ◌+◌, ◌≤◌, ◌≡◌, ◌≢◌, ◌∙◌, sym, ap, refl, Bool, List, [], ◌∷◌, ◌++◌, arith, ◌==◌,
  if◌then◌else◌, length, take, drop, take-append-take, length-drop, Bool-cases, inl, inr,
}

-- `exhausted` is no result of the code: the rounds of the model ran out.
pub data Outcome : Type 0 where
  written failed short_write exhausted : Outcome

module _ {S : Type 0} (write : S → List ℕ → S × ℕ × Bool) where
  pub write_rounds : ℕ → S → List ℕ → S × Outcome
  write_rounds rounds s [] = (s, written)
  write_rounds zero s (x ∷ b) = (s, exhausted)
  write_rounds (suc rounds) s (x ∷ b) =
      let r = write s (x ∷ b) in
      let rest = write_rounds rounds r.0 (drop r.1 (x ∷ b)) in
      if r.2 then (r.0, failed) else if r.1 == 0 then (r.0, short_write) else rest

  -- A round that goes on took a byte at least.
  pub write_all : S → List ℕ → S × Outcome
  write_all s b = write_rounds (length b) s b

  -- What `io.Writer` documents: it takes a prefix of the bytes, and says how long a one.
  pub record IsWriter (sent : S → List ℕ) : Type 0 where
    pub bounded : (s : S) (b : List ℕ) → (write s b).1 ≤ length b
    pub appends : (s : S) (b : List ℕ) → sent (write s b).0 ≡ sent s ++ take (write s b).1 b

  -- A prefix of `b` was sent, all of it if the outcome is `written`.
  pub record Sends (sent : S → List ℕ) (s : S) (b : List ℕ) (r : S × Outcome) : Type 0 where
    pub count : ℕ
    pub prefix : sent r.0 ≡ sent s ++ take count b
    pub within : count ≤ length b
    pub complete : r.1 ≡ written → count ≡ length b
    pub ends : r.1 ≢ exhausted

  module _ (sent : S → List ℕ) (w : IsWriter sent) where
    stopped :
        (s : S) (b : List ℕ) (o : Outcome)
        → o ≢ written
        → o ≢ exhausted
        → Sends sent s b ((write s b).0, o)
    stopped s b o unwritten known = record {
      count = (write s b).1;
      prefix = w.appends s b;
      within = w.bounded s b;
      complete = λ e. absurd (unwritten e);
      ends = known;
    }

    goes_on :
        (s : S) (b : List ℕ) (r : S × Outcome)
        → Sends sent (write s b).0 (drop (write s b).1 b) r
        → Sends sent s b r
    goes_on s b r rest = record {
      count = (write s b).1 + rest.count;
      prefix =
          rest.prefix
          ∙ ap (λ t. t ++ take rest.count (drop (write s b).1 b)) (w.appends s b)
          ∙ append_assoc (sent s) (take (write s b).1 b) (take rest.count (drop (write s b).1 b))
          ∙ ap (λ t. sent s ++ t) (take-append-take (write s b).1 rest.count b (w.bounded s b));
      within = omega (arith, rest.within, w.bounded s b, length-drop (write s b).1 b);
      complete = λ e. omega (arith, rest.complete e, w.bounded s b, length-drop (write s b).1 b);
      ends = rest.ends;
    }

    write_rounds-Sends :
        (rounds : ℕ) (s : S) (b : List ℕ)
        → length b ≤ rounds
        → Sends sent s b (write_rounds rounds s b)
    unfolding write_rounds
    write_rounds-Sends rounds s [] h = record {
      count = 0;
      prefix = sym (append-nil (sent s));
      within = omega arith;
      complete = λ e. refl;
      ends = λ e. cc;
    }
    write_rounds-Sends zero s (x ∷ b) h = absurd (omega arith)
    write_rounds-Sends (suc rounds) s (x ∷ b) h = elim (Bool-cases (write s (x ∷ b)).2) [
      | inl bad ↦ rw bad (stopped s (x ∷ b) failed (λ e. cc) (λ e. cc))
      | inr fine ↦ elim (Bool-cases ((write s (x ∷ b)).1 == 0)) [
        | inl none_taken ↦ rw (fine, none_taken) (stopped s (x ∷ b) short_write (λ e. cc) (λ e. cc))
        | inr some_taken ↦
            rw (fine, some_taken)
              (goes_on s (x ∷ b) _ (
                write_rounds-Sends rounds (write s (x ∷ b)).0 (drop (write s (x ∷ b)).1 (x ∷ b))
                  (ground (arith, length-drop (write s (x ∷ b)).1 (x ∷ b)))))
      ]
    ]

    -- Over a writer that keeps the contract of `io.Writer`, `writeAll` ends; what was sent is a
    -- prefix of the bytes, and all of them if it returns no error.
    pub write_all-Sends : (s : S) (b : List ℕ) → Sends sent s b (write_all s b)
    unfolding write_all
    write_all-Sends s b = write_rounds-Sends (length b) s b (omega arith)
