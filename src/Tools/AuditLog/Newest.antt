-- ===== src/Tools/AuditLog/Newest.antt =====
-- The audit log holds the newest of all entries written.
use claw_kernel.Prelude.{
  ℕ, zero, suc, ◌+◌, ◌-◌, ◌/◌, ◌≤◌, max, ◌≡◌, refl, sym, ap, subst, ◌∙◌, List, [], ◌∷◌, ◌++◌, map,
  ltb, ltb→lt, length, take, drop, length-append, arith, Bool-cases, ◌⊎◌, inl, inr,
}
use mathlib.Core.List.{append_assoc}
use claw_kernel.Tools.Types.{LogEntry}
use claw_kernel.Tools.AuditLog.{insert_key, remove_key, remove_keys, evict}

-- The numbers rise from `low` on and stay below `high`.
abbrev pub Between : ℕ → ℕ → List (ℕ × LogEntry) → Type 0
Between low high [] = low ≤ high
Between low high ((k, e) ∷ log) = (low ≤ k) × Between (suc k) high log

abbrev pub keys : List (ℕ × LogEntry) → List ℕ
keys log = map (λ e. e.0) log

abbrev pub entries : List (ℕ × LogEntry) → List LogEntry
entries log = map (λ e. e.1) log

Between-le : (low high : ℕ) (log : List (ℕ × LogEntry)) → Between low high log → low ≤ high
Between-le low high [] h = h
Between-le low high ((k, e) ∷ log) (le, h) = omega (arith, Between-le (suc k) high log h, le)

Between-lower :
    (low low' high : ℕ) (log : List (ℕ × LogEntry))
    → low' ≤ low
    → Between low high log
    → Between low' high log
Between-lower low low' high [] le h = omega arith
Between-lower low low' high ((k, e) ∷ log) le (le', h) = (omega arith, h)

insert_key-append :
    (k : ℕ) (e : LogEntry) (low high : ℕ) (log : List (ℕ × LogEntry))
    → high ≤ k
    → Between low high log
    → insert_key k e log ≡ log ++ (k, e) ∷ []
unfolding insert_key
insert_key-append k e low high [] le h = refl
insert_key-append k e low high ((j, d) ∷ log) le (lj, h) =
    let ih = insert_key-append k e (suc j) high log le h in
    let lt = Between-le (suc j) high log h in rw ih (ground (arith, lt, le))

Between-append :
    (k : ℕ) (e : LogEntry) (low high : ℕ) (log : List (ℕ × LogEntry))
    → high ≤ k
    → Between low high log
    → Between low (suc k) (log ++ (k, e) ∷ [])
Between-append k e low high [] le h = (omega arith, omega arith)
Between-append k e low high ((j, d) ∷ log) le (lj, h) =
    (lj, Between-append k e (suc j) high log le h)

remove_key-head :
    (j : ℕ) (d : LogEntry) (log : List (ℕ × LogEntry)) → remove_key j ((j, d) ∷ log) ≡ log
unfolding remove_key
remove_key-head j d log = ground arith

remove_keys-oldest :
    (n : ℕ) (log : List (ℕ × LogEntry)) → remove_keys (take n (keys log)) log ≡ drop n log
unfolding remove_keys
remove_keys-oldest zero log = refl
remove_keys-oldest (suc n) [] = refl
remove_keys-oldest (suc n) ((j, d) ∷ log) =
    ap (remove_keys (take n (keys log))) (remove_key-head j d log) ∙ remove_keys-oldest n log

Between-drop :
    (n low high : ℕ) (log : List (ℕ × LogEntry))
    → Between low high log
    → Between low high (drop n log)
Between-drop zero low high log h = h
Between-drop (suc n) low high [] h = h
Between-drop (suc n) low high ((k, e) ∷ log) (le, h) =
    Between-drop n low high log (Between-lower (suc k) low high log (omega arith) h)

length-drop : {A : Type 0} (n : ℕ) (xs : List A) → length (drop n xs) ≡ length xs - n
length-drop zero xs = omega arith
length-drop (suc n) [] = omega arith
length-drop (suc n) (x ∷ xs) = omega (arith, length-drop n xs)

take-drop : {A : Type 0} (n : ℕ) (xs : List A) → take n xs ++ drop n xs ≡ xs
take-drop zero xs = refl
take-drop (suc n) [] = refl
take-drop (suc n) (x ∷ xs) = ap (◌∷◌ x) (take-drop n xs)

entries-drop : (n : ℕ) (log : List (ℕ × LogEntry)) → entries (drop n log) ≡ drop n (entries log)
entries-drop zero log = refl
entries-drop (suc n) [] = refl
entries-drop (suc n) (e ∷ log) = entries-drop n log

entries-append : (xs ys : List (ℕ × LogEntry)) → entries (xs ++ ys) ≡ entries xs ++ entries ys
entries-append [] ys = refl
entries-append (x ∷ xs) ys = ap (◌∷◌ x.1) (entries-append xs ys)

-- The log is the end of all that was written, within its bound; what is gone, if anything, was
-- evicted by tenths.
pub record KeepsNewest (max_entries : ℕ) (written : List LogEntry) (counter : ℕ)
    (log : List (ℕ × LogEntry)) : Type 0 where
  pub older : List LogEntry
  pub split : written ≡ older ++ entries log
  pub numbers : Between 0 counter log
  pub within : length log ≤ max_entries
  pub recent : (older ≡ []) ⊎ (max_entries + 1 ≤ length log + max (max_entries / 10) 1)

evict-KeepsNewest :
    (m k : ℕ) (older : List LogEntry) (log : List (ℕ × LogEntry))
    → Between 0 (suc k) log
    → length log ≤ m + 1
    → ((older ≡ []) ⊎ (m + 1 ≤ length log + max (m / 10) 1))
    → KeepsNewest m (older ++ entries log) (suc k) (evict m log)
unfolding evict
evict-KeepsNewest m k older log numbers le recent = elim (Bool-cases (ltb m (length log))) [
  | inl full ↦
      let n = max (m / 10) 1 in
      let lt = ltb→lt m (length log) full in
      rw full (
        rw (remove_keys-oldest n log) (record {
          older = older ++ take n (entries log);
          split =
              ap (◌++◌ older) (
                sym (take-drop n (entries log))
                ∙ ap (◌++◌ (take n (entries log))) (sym (entries-drop n log)))
              ∙ sym (append_assoc older (take n (entries log)) (entries (drop n log)));
          numbers = Between-drop n 0 (suc k) log numbers;
          within = omega (arith, length-drop n log, le);
          recent = inr (omega (arith, length-drop n log, le, lt));
        }))
  | inr free ↦ rw free (record {
    older = older;
    split = refl;
    numbers = numbers;
    within = ground (arith, le);
    recent = recent;
  })
]

pub insert-KeepsNewest :
    (m counter k : ℕ) (e : LogEntry) (written : List LogEntry) (log : List (ℕ × LogEntry))
    → counter ≤ k
    → KeepsNewest m written counter log
    → KeepsNewest m (written ++ e ∷ []) (suc k) (evict m (insert_key k e log))
insert-KeepsNewest m counter k e written log le h =
    rw (insert_key-append k e 0 counter log le h.numbers) (
      subst (λ all. KeepsNewest m all (suc k) (evict m (log ++ (k, e) ∷ []))) (sym all_written)
        (evict-KeepsNewest m k h.older (log ++ (k, e) ∷ [])
          (Between-append k e 0 counter log le h.numbers)
          (omega (arith, length-append log ((k, e) ∷ []), h.within))
          (elim h.recent [
            | inl e ↦ inl e
            | inr le ↦ inr (omega (arith, length-append log ((k, e) ∷ []), le))
          ])))
  where
    all_written : written ++ e ∷ [] ≡ h.older ++ entries (log ++ (k, e) ∷ [])
    all_written =
        ap (λ l. l ++ e ∷ []) h.split
        ∙ append_assoc h.older (entries log) (e ∷ [])
        ∙ ap (◌++◌ h.older) (sym (entries-append log ((k, e) ∷ [])))
