-- ===== src/MemoryLog/First.antt =====
-- The log keeps the first messages (`add_log` of hako_master_data.hpp).
use mathlib.Core.List.{append_assoc, append-nil}
use hakoniwa_core_cpp.Prelude.{
  ℕ, zero, suc, ◌-◌, ◌≤◌, ◌<◌, List, [], ◌∷◌, ◌++◌, map, length, set, take, ◌≡◌, refl, ap, sym, ◌∙◌,
  arith, length-set, take-set, dec_lt,
}
use hakoniwa_core_cpp.MemoryLog.{LogData, stored, add_log, add_logs, print_log}

take-nil : (n : ℕ) → take {A = List ℕ} n [] ≡ []
take-nil zero = refl
take-nil (suc n) = refl

module _ (entry_size : ℕ) where
  add_log-full :
      (text : List ℕ) (l : LogData) → length l.entries ≤ l.index → add_log entry_size text l ≡ l
  unfolding add_log
  add_log-full text l h = ground arith

  abbrev added : List ℕ → LogData → LogData
  added text l = record {
    index = suc l.index;
    entries = set l.entries l.index (stored entry_size text);
  }

  add_log-room :
      (text : List ℕ) (l : LogData)
      → l.index < length l.entries
      → add_log entry_size text l ≡ added text l
  unfolding add_log
  add_log-room text l h = ground arith

  print-added :
      (text : List ℕ) (l : LogData)
      → l.index < length l.entries
      → print_log (added text l) ≡ print_log l ++ stored entry_size text ∷ []
  unfolding print_log
  print-added text l h = take-set l.index l.entries (stored entry_size text) h

  -- After any messages, one after the other, to a log whose index is not beyond its entries: what is
  -- printed is what was printed before and the first of the messages, as many as there was room for, each
  -- cut to what an entry holds. The later ones are dropped, and the first ones stay.
  pub print-add_logs :
      (ts : List (List ℕ)) (l : LogData)
      → l.index ≤ length l.entries
      → print_log (add_logs entry_size ts l)
        ≡ print_log l ++ take (length l.entries - l.index) (map (stored entry_size) ts)
  unfolding add_logs
  print-add_logs [] l h = sym (ap (λ xs. print_log l ++ xs) (take-nil _) ∙ append-nil (print_log l))
  print-add_logs (t ∷ ts) l h = elim (dec_lt l.index (length l.entries)) [
    | no full ↦
        let none_left : length l.entries - l.index ≡ 0 = omega arith in
        ap (λ k. print_log (add_logs entry_size ts k)) (add_log-full t l (omega arith))
        ∙ print-add_logs ts l h
        ∙ ap (λ n. print_log l ++ take n (map (stored entry_size) ts)) none_left
        ∙ sym (ap (λ n. print_log l ++ take n (map (stored entry_size) (t ∷ ts))) none_left)
    | yes room ↦
        let size = length-set l.entries l.index (stored entry_size t) in
        let one_less : length l.entries - l.index ≡ suc (length l.entries - suc l.index) =
          omega arith in
        let left : length (added t l).entries - suc l.index ≡ length l.entries - suc l.index =
          omega arith in
        ap (λ k. print_log (add_logs entry_size ts k)) (add_log-room t l room)
        ∙ print-add_logs ts (added t l) (omega arith)
        ∙ ap (λ n. print_log (added t l) ++ take n (map (stored entry_size) ts)) left
        ∙ ap (λ xs. xs ++ take (length l.entries - suc l.index) (map (stored entry_size) ts))
            (print-added t l room)
        ∙ append_assoc (print_log l) (stored entry_size t ∷ []) _
        ∙ sym (ap (λ n. print_log l ++ take n (map (stored entry_size) (t ∷ ts))) one_less)
  ]
