-- ===== src/Diag/Last.antt =====
-- The log keeps the newest 32 records, in order.
use mathlib.Core.List.{append_assoc, append-nil}
use pulse_esp32_host.Base.{
  ℕ, suc, ◌+◌, ◌-◌, ◌%◌, ◌^◌, ◌≤◌, ◌<◌, ◌≡◌, refl, sym, ap, ◌∙◌, true, Bool-cases, inl, inr, List,
  [], ◌∷◌, ◌++◌, Option, ok, ltb, ltb→lt, length, length-append, length-set, get_or, get_or-ring,
  drop, drop-append, drop-drop, length-drop, Text, ring, length-ring, ring-set_end, ring-set_full,
  arith,
}
use pulse_esp32_host.Diag.Log.{
  Diag, DiagRecord, ring_capacity, blank_record, record_of, diag_init, log_ready, diag_log,
  diag_get,
}

-- The records on the ring, oldest first.
abbrev pub logged : Diag → List DiagRecord
logged d = ring blank_record ring_capacity d.ring_buf d.head d.count

pub record IsRing (d : Diag) : Type 0 where
  pub storage : length d.ring_buf ≡ ring_capacity
  pub head_in : d.head < ring_capacity
  pub count_in : d.count ≤ ring_capacity
  pub running : d.initialized ≡ true

-- The last `n` of a list.
abbrev pub keep_last {ℓ} : {A : Type ℓ} → ℕ → List A → List A
keep_last n xs = drop (length xs - n) xs

init-IsRing : IsRing diag_init
unfolding diag_init
init-IsRing = ground arith

log-IsRing :
    (now level : ℕ) (m : Option Text) (d : Diag) → IsRing d → IsRing (diag_log now level m d)
unfolding diag_log log_ready
log-IsRing now level m d v = ground (
  arith,
  length-set d.ring_buf d.head (record_of d.next_seq now level m),
  length-set d.ring_buf ((d.head + d.count) % ring_capacity) (record_of d.next_seq now level m),
)

keep_all {ℓ} : {A : Type ℓ} (n : ℕ) (xs : List A) → length xs ≤ n → keep_last n xs ≡ xs
keep_all n xs h = let e : length xs - n ≡ 0 = omega arith in ap (λ k. drop k xs) e

drop_one {ℓ} :
    {A : Type ℓ} (n : ℕ) (x : A) (xs : List A) → length xs ≡ n → keep_last n (x ∷ xs) ≡ xs
drop_one n x xs h = let e : suc (length xs) - n ≡ 1 = omega arith in ap (λ k. drop k (x ∷ xs)) e

module _ (now level : ℕ) (m : Option Text) (d : Diag) (v : IsRing d) where
  abbrev new : DiagRecord
  new = record_of d.next_seq now level m

  log_room : d.count < ring_capacity → logged (diag_log now level m d) ≡ logged d ++ (new ∷ [])
  unfolding diag_log log_ready
  log_room h = ground (
    arith,
    ring-set_end blank_record ring_capacity d.ring_buf new d.count d.head
        ((d.head + d.count) % ring_capacity),
  )

  log_full :
      d.count ≡ ring_capacity
      → logged (diag_log now level m d)
        ≡ ring blank_record ring_capacity d.ring_buf ((d.head + 1) % ring_capacity) 31 ++ (new ∷ [])
  unfolding diag_log log_ready
  log_full h = ground (arith, ring-set_full blank_record ring_capacity d.ring_buf new 31 d.head)

  log-keep_last : logged (diag_log now level m d) ≡ keep_last ring_capacity (logged d ++ (new ∷ []))
  log-keep_last = elim (Bool-cases (ltb d.count ring_capacity)) [
    | inl e ↦
        log_room (ground arith)
        ∙ sym (
            keep_all ring_capacity _ (
              omega (
                arith,
                ltb→lt d.count ring_capacity e,
                length-append (logged d) (new ∷ []),
                length-ring blank_record ring_capacity d.ring_buf d.head d.count,
              )))
    | inr e ↦
        let full : d.count ≡ ring_capacity = ground (arith, v.count_in) in
        let rest = ring blank_record ring_capacity d.ring_buf ((d.head + 1) % ring_capacity) 31 in
        let split : logged d ≡ get_or d.ring_buf d.head blank_record ∷ rest = rw full refl in
        log_full full
        ∙ sym (
            drop_one ring_capacity (get_or d.ring_buf d.head blank_record) (rest ++ (new ∷ [])) (
              omega (
                arith,
                length-append rest (new ∷ []),
                length-ring blank_record ring_capacity d.ring_buf ((d.head + 1) % ring_capacity) 31,
              )))
        ∙ ap (λ (xs : List DiagRecord). keep_last ring_capacity (xs ++ (new ∷ []))) (sym split)
  ]

keep_last-append {ℓ} :
    {A : Type ℓ} (n : ℕ) (xs ys : List A)
    → keep_last n (keep_last n xs ++ ys) ≡ keep_last n (xs ++ ys)
keep_last-append n xs ys =
    let k = length xs - n in
    let joined : drop k xs ++ ys ≡ drop k (xs ++ ys) = sym (drop-append k xs ys (omega arith)) in
    let e : k + (length (drop k xs ++ ys) - n) ≡ length (xs ++ ys) - n =
      omega (arith, length-append (drop k xs) ys, length-append xs ys, length-drop k xs) in
    ap (drop (length (drop k xs ++ ys) - n)) joined
    ∙ drop-drop (length (drop k xs ++ ys) - n) k (xs ++ ys)
    ∙ ap (λ j. drop j (xs ++ ys)) e

-- A call of wdc_diag_log: the time, the level and the message.
abbrev pub Call : Type 0
Call = ℕ × ℕ × Option Text

unfoldable pub log_all : Diag → List Call → Diag
log_all d [] = d
log_all d ((now, level, m) ∷ calls) = log_all (diag_log now level m d) calls

-- The records of the calls, numbered from `seq` on.
abbrev pub records : ℕ → List Call → List DiagRecord
records seq [] = []
records seq ((now, level, m) ∷ calls) =
    record_of seq now level m ∷ records ((seq + 1) % 2 ^ 32) calls

next_seq-log :
    (now level : ℕ) (m : Option Text) (d : Diag)
    → IsRing d
    → (diag_log now level m d).next_seq ≡ (d.next_seq + 1) % 2 ^ 32
unfolding diag_log log_ready
next_seq-log now level m d v = ground (arith, v.running)

log_all-keep_last :
    (d : Diag) (calls : List Call)
    → IsRing d
    → IsRing (log_all d calls)
      × (logged (log_all d calls) ≡ keep_last ring_capacity (logged d ++ records d.next_seq calls))
unfolding log_all
log_all-keep_last d [] v = (
  v,
  sym (
      ap (keep_last ring_capacity) (append-nil (logged d))
      ∙ keep_all ring_capacity (logged d) (
          omega
            (arith, length-ring blank_record ring_capacity d.ring_buf d.head d.count, v.count_in))),
)
log_all-keep_last d ((now, level, m) ∷ calls) v =
    let d' = diag_log now level m d in
    let new = record_of d.next_seq now level m in
    let later = records ((d.next_seq + 1) % 2 ^ 32) calls in
    let (v', rest) = log_all-keep_last d' calls (log-IsRing now level m d v) in
    (
      v',
      rest
          ∙ ap (λ seq. keep_last ring_capacity (logged d' ++ records seq calls))
              (next_seq-log now level m d v)
          ∙ ap (λ (xs : List DiagRecord). keep_last ring_capacity (xs ++ later))
              (log-keep_last now level m d v)
          ∙ keep_last-append ring_capacity (logged d ++ (new ∷ [])) later
          ∙ ap (keep_last ring_capacity) (append_assoc (logged d) (new ∷ []) later),
    )

read_record :
    (d : Diag) (index : ℕ)
    → IsRing d
    → index < length (logged d)
    → diag_get d index ≡ ok (get_or (logged d) index blank_record)
unfolding diag_get
read_record d index v h = ground (
  arith,
  length-ring blank_record ring_capacity d.ring_buf d.head d.count,
  get_or-ring blank_record ring_capacity d.ring_buf d.count d.head index,
)

-- After any calls from the start, the log holds the records of the last 32 of them, oldest first and
-- numbered in order from 1, and each index below their number reads its record.
pub log_keeps_last :
    (calls : List Call) (index : ℕ)
    → index < length (logged (log_all diag_init calls))
    → let d = log_all diag_init calls in
      (logged d ≡ keep_last ring_capacity (records 1 calls))
      × (diag_get d index ≡ ok (get_or (logged d) index blank_record))
log_keeps_last calls index h =
    let (v, e) = log_all-keep_last diag_init calls init-IsRing in
    ((unfold diag_init in e), read_record (log_all diag_init calls) index v h)
