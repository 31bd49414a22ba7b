-- ===== src/Coverage/Manager/Requests.antt =====
-- `Prepare` and the queries of transaction.go keep the log in order.
use text.Mathlib.Text.{◌==◌ as str_eq}
use route_harbor.Prelude.{
  ◌≡◌, refl, sym, subst, ◌∙◌, Bool, true, false, not, List, Option, none, some, String, arith,
}
use route_harbor.Coverage.{Plan}
use route_harbor.Coverage.Journal.{Journal, occupied}
use route_harbor.Coverage.World.{World, Env, Event, disk, read_file}
use route_harbor.Coverage.History.{IsHistory}
use route_harbor.Coverage.Manager.Rules.{Safe, either-Safe, ends, quiet, begins}
use route_harbor.Coverage.Manager.Methods.{
  guards, log-guard, log-or_raise, log-refuse, log-clock, log-check_current, loads, finds,
}
use route_harbor.Coverage.Manager.{replay, begin, prepare, validate, status, material, can_remove}
use route_harbor.Coverage.Calls.{new_transaction, new_journal, do_check, do_snapshot, do_draw}

not-eq-true : (b : Bool) → not b ≡ true → b ≡ false
not-eq-true b h = ground arith

some_path : (x o : Journal) → some x ≡ some o → x ≡ o
some_path x o e = cc

free-disk :
    (old : Option Journal) (j : Journal)
    → read_file old ≡ j
    → not (occupied j.transaction) ≡ true
    → (o : Journal) → old ≡ some o
    → occupied o.transaction ≡ false
free-disk none j e f o d = cc
free-disk (some x) j e f o d =
    subst (λ (y : Journal). occupied y.transaction ≡ false) (sym e ∙ some_path x o d)
      (not-eq-true (occupied j.transaction) f)

module _ {H : Type 0} (env : Env H) where
  pub log-do_check : (p : Plan) (w : World H) → (do_check env p w).0.log ≡ w.log
  unfolding do_check
  log-do_check p w = log-or_raise _ _ w

  log-do_snapshot : (p : Plan) (w : World H) → (do_snapshot env p w).0.log ≡ w.log
  unfolding do_snapshot
  log-do_snapshot p w = log-or_raise _ _ w

  log-do_draw : (w : World H) → (do_draw env w).0.log ≡ w.log
  unfolding do_draw
  log-do_draw w = log-or_raise (env.draw w.hw).1 _ (record w { hw = (env.draw w.hw).0 })

  begin-Safe :
      (log : List Event) (j : Journal) (key : String) (p : Plan) (w : World H)
      → IsHistory log
      → read_file (disk log) ≡ j
      → w.log ≡ log
      → Safe (begin env j key p w)
  unfolding begin
  begin-Safe log j key p w h e l = guards log (not (occupied j.transaction)) _ _ w h l λ free w₁ l₁.
      quiet log _ _ w₁ h l₁ (log-do_check p w₁) λ wifi w₂ l₂ r₂.
        quiet log _ _ w₂ h l₂ (log-do_snapshot p w₂) λ s w₃ l₃ r₃.
          quiet log _ _ w₃ h l₃ (log-refuse _ w₃) λ u w₄ l₄ r₄.
            quiet log _ _ w₄ h l₄ (log-do_draw w₄) λ id w₅ l₅ r₅.
              quiet log _ _ w₅ h l₅ (log-clock w₅) λ now w₆ l₆ r₆.
                begins log (new_journal wifi (new_transaction id now p) s key (env.digest p)) _ w₆ h
                  (record {
                    opened = new_transaction id now p;
                    is = refl;
                    fresh = refl;
                    free = free-disk (disk log) j e free;
                  })
                  l₆ λ w₇ l₇ h₇. ends _ w₇ h₇ l₇

  replay-Safe :
      (log : List Event) (j : Journal) (p : Plan) (w : World H)
      → IsHistory log
      → w.log ≡ log
      → Safe (replay env j p w)
  unfolding replay
  replay-Safe log j p w h l =
      guards log _ _ _ w h l λ same w₁ l₁. rw (log-or_raise j.transaction _ w₁, l₁) h

  pub prepare-Safe :
      (key : String) (p : Plan) (w : World H) → IsHistory w.log → Safe (prepare env key p w)
  unfolding prepare
  prepare-Safe key p w h = quiet w.log _ _ w h refl (log-refuse _ w) λ u w₁ l₁ r₁.
      guards w.log _ _ _ w₁ h l₁ λ keyed w₂ l₂. loads env w.log _ w₂ h l₂ λ j w₃ l₃ e c.
        either-Safe (str_eq j.request_key key) (replay env j p) (begin env j key p) w₃
          (λ q. replay-Safe w.log j p w₃ h l₃) (λ q. begin-Safe w.log j key p w₃ h e l₃)

  pub validate-Safe : (id : String) (w : World H) → IsHistory w.log → Safe (validate env id w)
  unfolding validate
  validate-Safe id w h = loads env w.log _ w h refl λ j w₁ l₁ e c.
      finds env w.log id j _ w₁ h l₁ e λ t w₂ l₂ a q.
        quiet w.log _ _ w₂ h l₂ (log-check_current env j t w₂) λ u w₃ l₃ r. ends w.log w₃ h l₃

  pub status-Safe : (w : World H) → IsHistory w.log → Safe (status env w)
  unfolding status
  status-Safe w h = loads env w.log _ w h refl λ j w₁ l₁ e c. ends w.log w₁ h l₁

  pub can_remove-Safe : (w : World H) → IsHistory w.log → Safe (can_remove env w)
  unfolding can_remove
  can_remove-Safe w h = loads env w.log _ w h refl λ j w₁ l₁ e c. rw (log-guard _ _ w₁, l₁) h

  pub material-Safe : (id : String) (w : World H) → IsHistory w.log → Safe (material env id w)
  unfolding material
  material-Safe id w h = loads env w.log _ w h refl λ j w₁ l₁ e c.
      quiet w.log _ _ w₁ h l₁ (log-or_raise _ _ w₁)
        λ t w₂ l₂ r. rw (log-or_raise j.private_wifi _ w₂, l₂) h
