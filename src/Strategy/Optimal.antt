-- ===== src/Strategy/Optimal.antt =====
-- How good the choice of each strategy is.
use incident.Prelude.{
  ℕ, ◌≤◌, Bool, true, false, List, [], ◌∷◌, ◌≡◌, refl, ap, all, subst, if◌then◌else◌, arith, Memᴰ,
  Bool-split, is_empty, select, mem-select, mem-select_of, sort, mem-sort_of, count, min_from-le,
  mem-min_from, IsOrder, IsSorted, sort-IsSorted, All-mem, Text,
}
use incident.Models.{Employee, Incident}
use incident.Session.{Tables, Result, ok, err}
use incident.Workload.{workload}
use incident.Eligibility.{has_skills}
use incident.Strategy.{
  least_workload, skill_based, other, get_required_skills, by_load, match_count, by_match, min_of,
  or_index_error, at_index, pick_least_workload, pick_skill_based, pick_skill_plus_workload,
  apply_strategy,
}
use incident.Strategy.Choices.{by_load-IsOrder, by_match-IsOrder}

payload : Employee → Result Employee → Employee
payload d (ok e) = e
payload d (err x) = d

ok-injective : {a b : Employee} → ok a ≡ ok b → a ≡ b
unfolding payload
ok-injective {a = a} h = ap (payload a) h

some_in : {b : Employee} {emps : List Employee} → Memᴰ b emps → is_empty emps ≡ false
some_in (Memᴰ.head e) = refl
some_in (Memᴰ.tail m) = refl

module _ (le : Employee → Employee → Bool) (order : IsOrder le) where
  min_of-le :
      (emps : List Employee) {e b : Employee} → min_of le emps ≡ ok e → Memᴰ b emps → le e b ≡ true
  unfolding min_of
  min_of-le [] h m = elim m [ ]
  min_of-le (x ∷ xs) {b = b} h m =
      subst (λ e. le e b ≡ true) (ok-injective h) (min_from-le order x xs m)

  min_of-mem : (emps : List Employee) {e : Employee} → min_of le emps ≡ ok e → Memᴰ e emps
  unfolding min_of
  min_of-mem [] h = cc
  min_of-mem (x ∷ xs) h = subst (λ e. Memᴰ e (x ∷ xs)) (ok-injective h) (mem-min_from le x xs)

  le_refl : (a : Employee) → le a a ≡ true
  le_refl a = Bool-split (le a a) (λ t. t) (λ f. order.total a a f)

  head-le :
      (emps : List Employee) {e b : Employee}
      → IsSorted le emps
      → at_index emps 0 ≡ ok e
      → Memᴰ b emps
      → le e b ≡ true
  unfolding at_index or_index_error
  head-le [] s h m = elim m [ ]
  head-le (x ∷ xs) {b = b} (above, s) h (Memᴰ.head same) =
      subst (λ e. le e b ≡ true) (ok-injective h) (rw same (le_refl x))
  head-le (x ∷ xs) {b = b} (above, s) h (Memᴰ.tail m) =
      subst (λ e. le e b ≡ true) (ok-injective h) (All-mem (λ y. le x y ≡ true) xs above m)

  sort_head-le :
      (emps : List Employee) {e b : Employee}
      → at_index (sort le emps) 0 ≡ ok e
      → Memᴰ b emps
      → le e b ≡ true
  sort_head-le emps h m = head-le (sort le emps) (sort-IsSorted order emps) h (mem-sort_of le m)

module _ (str_id : ℕ → Text) (t : Tables) where
  by_load-le : (a b : Employee) → by_load str_id t a b ≡ true → workload t a.id ≤ workload t b.id
  unfolding by_load
  by_load-le a b h = ground arith

  by_match-le :
      (required : List ℕ) (a b : Employee)
      → by_match str_id t required a b ≡ true
      → match_count t required b ≤ match_count t required a
  unfolding by_match
  by_match-le required a b h = ground arith

  abbrev le : Employee → Employee → Bool
  le = by_load str_id t

  order : IsOrder le
  order = by_load-IsOrder str_id t

  -- Nobody eligible has a smaller workload than the choice of LEAST_WORKLOAD.
  pub least_workload_least :
      (eligible : List Employee) (inc : Incident) (e b : Employee)
      → apply_strategy str_id least_workload t eligible inc ≡ ok e
      → Memᴰ b eligible
      → workload t e.id ≤ workload t b.id
  unfolding apply_strategy pick_least_workload
  least_workload_least eligible inc e b h m =
      by_load-le e b (min_of-le (by_load str_id t) (by_load-IsOrder str_id t) eligible h m)

  best_match :
      (required : List ℕ) (eligible : List Employee) (e b : Employee)
      → pick_skill_based str_id t required eligible ≡ ok e
      → Memᴰ b eligible
      → match_count t required b ≤ match_count t required e
  unfolding pick_skill_based match_count count
  best_match [] eligible e b h m = omega arith
  best_match (r ∷ rs) eligible e b h m =
      let by = by_match str_id t (r ∷ rs) in
      by_match-le (r ∷ rs) e b (sort_head-le by (by_match-IsOrder str_id t (r ∷ rs)) eligible h m)

  -- Nobody eligible has more of the required skills than the choice of SKILL_BASED.
  pub skill_based_best :
      (eligible : List Employee) (inc : Incident) (e b : Employee)
      → apply_strategy str_id skill_based t eligible inc ≡ ok e
      → Memᴰ b eligible
      → match_count t (get_required_skills t inc.id) b
        ≤ match_count t (get_required_skills t inc.id) e
  unfolding apply_strategy
  skill_based_best eligible inc e b h m = best_match (get_required_skills t inc.id) eligible e b h m

  best_skilled :
      (required : List ℕ) (eligible : List Employee) (e b : Employee)
      → pick_skill_plus_workload str_id t required eligible ≡ ok e
      → Memᴰ b eligible
      → has_skills t required b ≡ true
      → (has_skills t required e ≡ true) × (workload t e.id ≤ workload t b.id)
  unfolding pick_skill_plus_workload has_skills all
  best_skilled [] eligible e b h m s = (refl, by_load-le e b (min_of-le le order eligible h m))
  best_skilled (r ∷ rs) eligible e b h m s =
      let p = has_skills t (r ∷ rs) in
      let inside = mem-select_of p m s in
      let pick = λ (c : Bool). if c then min_of le eligible else min_of le (select p eligible) in
      let found = subst (λ (c : Bool). pick c ≡ ok e) (some_in inside) h in
      (
        (mem-select p eligible (min_of-mem le order (select p eligible) found)).1,
        by_load-le e b (min_of-le le order (select p eligible) found inside),
      )

  -- Where somebody eligible has all required skills, the choice of the default strategy has them too
  -- and nobody who has them has a smaller workload.
  pub skill_plus_workload_best :
      (eligible : List Employee) (inc : Incident) (e b : Employee)
      → apply_strategy str_id other t eligible inc ≡ ok e
      → Memᴰ b eligible
      → has_skills t (get_required_skills t inc.id) b ≡ true
      → (has_skills t (get_required_skills t inc.id) e ≡ true) × (workload t e.id ≤ workload t b.id)
  unfolding apply_strategy
  skill_plus_workload_best eligible inc e b h m skilled =
      best_skilled (get_required_skills t inc.id) eligible e b h m skilled
