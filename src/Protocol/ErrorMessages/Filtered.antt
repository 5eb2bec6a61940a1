-- ===== src/Protocol/ErrorMessages/Filtered.antt =====
-- What the filter lets through.
use peerc.Common.{
  ◌≡◌, refl, inl, inr, ap, ◌∙◌, sym, Bool, true, false, Option, none, some, String, arith,
  Bool-cases, if◌then◌else◌,
}
use peerc.Protocol.Values.{Value, Fields, end, field, get}
use peerc.Protocol.ErrorMessages.{safe_retry, keep, kept_id, filter_fields, safe_id}

-- A value that passes its test, or nothing.
abbrev pub kept : (Option Value → Bool) → Option Value → Option Value
kept safe v = if safe v then v else none

-- A field that is there or not.
abbrev optional : String → Option Value → Fields → Fields
optional name none rest = rest
optional name (some v) rest = field name v rest

abbrev pub assemble : Option Value → Option Value → Option Value → Option Value → Fields
assemble a b c d =
    optional "message_id" a
      (optional "transfer_id" b (optional "group_id" c (optional "retry_after" d end)))

keep-optional :
    (name : String) (safe : Option Value → Bool) (v : Option Value) (rest : Fields)
    → keep name (safe v) v rest ≡ optional name (kept safe v) rest
unfolding keep
keep-optional name safe v rest = elim (Bool-cases (safe v)) [
  | inl fine ↦ rw (fine) (keep_true name v rest)
  | inr bad ↦ rw (bad) (keep_false name v rest)
]
  where
    keep_true :
        (name : String) (v : Option Value) (rest : Fields)
        → keep name true v rest ≡ optional name v rest
    keep_true name none rest = refl
    keep_true name (some v) rest = refl

    keep_false : (name : String) (v : Option Value) (rest : Fields) → keep name false v rest ≡ rest
    keep_false name none rest = refl
    keep_false name (some v) rest = refl

filter-assemble :
    (m : Fields)
    → filter_fields m
      ≡ assemble
          (kept safe_id (get "message_id" m))
          (kept safe_id (get "transfer_id" m))
          (kept safe_id (get "group_id" m))
          (kept safe_retry (get "retry_after" m))
unfolding filter_fields kept_id
filter-assemble m =
    keep-optional "message_id" safe_id (get "message_id" m) _
    ∙ ap (optional "message_id" (kept safe_id (get "message_id" m))) (
        keep-optional "transfer_id" safe_id (get "transfer_id" m) _
        ∙ ap (optional "transfer_id" (kept safe_id (get "transfer_id" m))) (
            keep-optional "group_id" safe_id (get "group_id" m) _
            ∙ ap (optional "group_id" (kept safe_id (get "group_id" m)))
                (keep-optional "retry_after" safe_retry (get "retry_after" m) end)))

get_each :
    (a b c d : Option Value)
    → (get "message_id" (assemble a b c d) ≡ a)
      × (get "transfer_id" (assemble a b c d) ≡ b)
      × (get "group_id" (assemble a b c d) ≡ c)
      × (get "retry_after" (assemble a b c d) ≡ d)
unfolding get
get_each none none none none = (refl, refl, refl, refl)
get_each a b c d = ground arith

kept-kept :
    (safe : Option Value → Bool) (v : Option Value)
    → safe none ≡ false
    → kept safe (kept safe v) ≡ kept safe v
kept-kept safe v h = elim (Bool-cases (safe v)) [
  | inl fine ↦ rw (fine, fine) refl
  | inr bad ↦ rw (bad, h) refl
]

-- The filter keeps of the four allowed keys exactly those whose value is a safe id, or a safe time
-- to wait, and drops every other key; so what a sender's filter kept, the receiver's filter keeps.
filter-fixed :
    (m : Fields)
    → (get "message_id" (filter_fields m) ≡ kept safe_id (get "message_id" m))
      × (get "transfer_id" (filter_fields m) ≡ kept safe_id (get "transfer_id" m))
      × (get "group_id" (filter_fields m) ≡ kept safe_id (get "group_id" m))
      × (get "retry_after" (filter_fields m) ≡ kept safe_retry (get "retry_after" m))
      × (filter_fields (filter_fields m) ≡ filter_fields m)
filter-fixed m =
    let a = kept safe_id (get "message_id" m) in
    let b = kept safe_id (get "transfer_id" m) in
    let c = kept safe_id (get "group_id" m) in
    let d = kept safe_retry (get "retry_after" m) in
    let whole = filter-assemble m in
    let (ga, gb, gc, gd) = get_each a b c d in
    let again : filter_fields (assemble a b c d) ≡ assemble a b c d =
      filter-assemble (assemble a b c d)
      ∙ rw
          (
            ga,
            gb,
            gc,
            gd,
            kept-kept safe_id (get "message_id" m) refl,
            kept-kept safe_id (get "transfer_id" m) refl,
            kept-kept safe_id (get "group_id" m) refl,
            kept-kept safe_retry (get "retry_after" m) refl,
          )
          refl in
    (
      ap (get "message_id") whole ∙ ga,
      ap (get "transfer_id") whole ∙ gb,
      ap (get "group_id") whole ∙ gc,
      ap (get "retry_after") whole ∙ gd,
      ap filter_fields whole ∙ again ∙ sym whole,
    )
