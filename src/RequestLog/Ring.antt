-- ===== src/RequestLog/Ring.antt =====
-- The ring buffer of internal/infrastructure/memstore/requestlog.go against the sequence of all the
-- entries that were ever added.
use chaospay.Prelude.{
  ℕ, zero, suc, ◌-◌, ◌≤◌, ◌<◌, ◌≡◌, refl, sym, ◌∙◌, ap, List, [], ◌∷◌, ◌++◌, inl, inr, arith,
  length, drop, length-append, length-drop, drop-append, Bool-cases, leb,
}
use mathlib.Core.Path.{subst}
use mathlib.Core.List.{append_assoc, append-nil}
use chaospay.Prelude.Words.{ℤ, pos, negsuc, add64}
use chaospay.Payment.{Time}
use chaospay.RequestLog.{Entry, RequestLog, stamp_entry, new_request_log, add}

-- A request as it reaches `Add`, with the time of the call.
abbrev pub Arrival : Type 0
Arrival = Time × Entry

-- Every entry that arrives, under consecutive numbers.
unfoldable pub stamped : ℕ → List Arrival → List Entry
stamped n [] = []
stamped n ((now, e) ∷ more) = stamp_entry now (add64 n 1) e ∷ stamped (add64 n 1) more

-- The last `n` elements.
abbrev pub keep_last : ℕ → List Entry → List Entry
keep_last n xs = drop (length xs - n) xs

unfoldable pub add_all : List Arrival → RequestLog → RequestLog
add_all [] l = l
add_all ((now, e) ∷ more) l = add_all more (add now e l)

-- The buffer holds the last entries of `all`.
record Shows (all : List Entry) (l : RequestLog) : Type 0 where
  pub entries : l.entries ≡ keep_last l.cap all
  pub positive : 1 ≤ l.cap

drop-drop : (m : ℕ) (xs : List Entry) → drop 1 (drop m xs) ≡ drop (suc m) xs
drop-drop zero [] = refl
drop-drop zero (x ∷ xs) = refl
drop-drop (suc m) [] = refl
drop-drop (suc m) (x ∷ xs) = drop-drop m xs

full :
    (cap : ℕ) (all : List Entry) (x : Entry)
    → 1 ≤ cap
    → cap ≤ length (keep_last cap all)
    → drop 1 (keep_last cap all) ++ x ∷ [] ≡ keep_last cap (all ++ x ∷ [])
full cap all x p h =
    let n = length-append all (x ∷ []) in
    let m = length-drop (length all - cap) all in
    let enough : suc (length all - cap) ≤ length all = omega (arith, p, h, m) in
    let same : length (all ++ x ∷ []) - cap ≡ suc (length all - cap) = omega (arith, n, m, h, p) in
    ap (λ l. l ++ x ∷ []) (drop-drop (length all - cap) all)
    ∙ sym (drop-append (suc (length all - cap)) all (x ∷ []) enough)
    ∙ ap (λ k. drop k (all ++ x ∷ [])) (sym same)

not_full :
    (cap : ℕ) (all : List Entry) (x : Entry)
    → length (keep_last cap all) < cap
    → keep_last cap all ++ x ∷ [] ≡ keep_last cap (all ++ x ∷ [])
not_full cap all x h =
    let n = length-append all (x ∷ []) in
    let m = length-drop (length all - cap) all in
    let none_dropped : length all - cap ≡ 0 = omega (arith, m, h) in
    let same : length (all ++ x ∷ []) - cap ≡ 0 = omega (arith, n, m, h) in
    ap (λ k. drop k all ++ x ∷ []) none_dropped ∙ ap (λ k. drop k (all ++ x ∷ [])) (sym same)

Shows-add :
    (now : Time) (e : Entry) (all : List Entry) (l : RequestLog)
    → Shows all l
    → Shows (all ++ stamp_entry now (add64 l.next_id 1) e ∷ []) (add now e l)
unfolding add
Shows-add now e all l s = record {
  entries = elim (Bool-cases (leb l.cap (length l.entries))) [
    | inl is_full ↦ rw is_full (
        ap (λ es. drop 1 es ++ stamp_entry now (add64 l.next_id 1) e ∷ []) s.entries
        ∙ full l.cap all (stamp_entry now (add64 l.next_id 1) e) s.positive
            (ground (arith, ap length s.entries, is_full)))
    | inr has_room ↦ rw has_room (
        ap (λ es. es ++ stamp_entry now (add64 l.next_id 1) e ∷ []) s.entries
        ∙ not_full l.cap all (stamp_entry now (add64 l.next_id 1) e)
            (ground (arith, ap length s.entries, has_room)))
  ];
  positive = s.positive;
}

Shows-add_all :
    (arrivals : List Arrival) (all : List Entry) (l : RequestLog)
    → Shows all l
    → Shows (all ++ stamped l.next_id arrivals) (add_all arrivals l)
unfolding stamped add_all add
Shows-add_all [] all l s = rw (append-nil all) s
Shows-add_all ((now, e) ∷ more) all l s =
    subst (λ xs. Shows xs (add_all more (add now e l)))
      (append_assoc all (stamp_entry now (add64 l.next_id 1) e ∷ [])
        (stamped (add64 l.next_id 1) more))
      (Shows-add_all more (all ++ stamp_entry now (add64 l.next_id 1) e ∷ []) (add now e l)
        (Shows-add now e all l s))

Shows-new : (capacity : ℤ) → Shows [] (new_request_log capacity)
unfolding new_request_log
Shows-new capacity = record {
  entries = sym (drop_none (new_request_log capacity).cap);
  positive = positive capacity;
}
  where
    drop_none : (n : ℕ) → keep_last n [] ≡ []
    drop_none n = ap (λ k. drop k []) zero_left
      where
        zero_left : 0 - n ≡ 0
        zero_left = omega arith

    positive : (c : ℤ) → 1 ≤ (new_request_log c).cap
    positive (pos n) = ground arith
    positive (negsuc n) = omega arith

cap-add_all : (arrivals : List Arrival) (l : RequestLog) → (add_all arrivals l).cap ≡ l.cap
unfolding add_all add
cap-add_all [] l = refl
cap-add_all ((now, e) ∷ more) l = cap-add_all more (add now e l)

-- After any number of entries a new journal holds the last of them, as many as its capacity, in the
-- order of their arrival and under consecutive numbers from 1 (which wrap at 2^64).
pub journal_keeps_last :
    (capacity : ℤ) (arrivals : List Arrival)
    → (add_all arrivals (new_request_log capacity)).entries
      ≡ keep_last (new_request_log capacity).cap (stamped 0 arrivals)
unfolding stamped new_request_log
journal_keeps_last capacity arrivals =
    (Shows-add_all arrivals [] (new_request_log capacity) (Shows-new capacity)).entries
    ∙ ap (λ n. keep_last n (stamped 0 arrivals)) (cap-add_all arrivals (new_request_log capacity))
