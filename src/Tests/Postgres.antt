-- ===== src/Tests/Postgres.antt =====
-- The theorems on pgstore, on a table that has room for one row.
use youpass_share_service.Base.{
  Bool, Bool-cases, Int64, List, Option, [], ap, bytes_eq, bytes_eq_refl, codes, false,
  if◌then◌else◌, inl, inr, none, refl, some, subst, sym, true, true≢false, ℕ, ◌==◌, ◌∙◌, ◌∷◌, ◌≡◌,
  ◌⊎◌, nat_eq, bytes_eq_instance,
}
use youpass_share_service.Domain.Error.{foreign, unavailable}
use youpass_share_service.Domain.Link.{Link, Time}
use youpass_share_service.Outcome.{Outcome, Post, ret, throw}
use youpass_share_service.Share.Contract.{IsFault}
use youpass_share_service.Postgres.{
  InsertError, Statements, active_resource, other, unique_violation,
}
use youpass_share_service.Postgres.Rows.{IsKeyed, change, matching, owned_row, shares_row}
use youpass_share_service.Postgres.Laws.{IsSelect, NoRow, Row, StatementLaws, new_row}
use youpass_share_service.Tests.{code_b, essay_link}

abbrev pub Single : Type 0
Single = Option Link

abbrev pub rows_in : Single → List Link
rows_in none = []
rows_in (some m) = m ∷ []

abbrev select_in : (Link → Bool) → Single → Outcome Single Link
select_in p none = throw (foreign 0) none
select_in p (some m) = if p m then ret m (some m) else throw (foreign 0) (some m)

abbrev update_in : (Link → Bool) → (Link → Link) → Single → Outcome Single Link
update_in p f none = throw (foreign 0) none
update_in p f (some m) = if p m then ret (f m) (some (f m)) else throw (foreign 0) (some m)

abbrev delete_in : (Link → Bool) → Single → Outcome Single ℕ
delete_in p none = ret 0 none
delete_in p (some m) =
    if p m then ret 1 (some (record m { deleted_at = some 10 })) else ret 0 (some m)

abbrev insert_in : Link → Single → (InsertError ⊎ (Int64 × Time)) × Single
insert_in l none = (inr (1, 10), some (new_row l 1 10))
insert_in l (some m) =
    if m.code == l.code
    then (inl (unique_violation (codes "uq_share_links_code")), some m)
    else if shares_row l.resource_type l.resource_id m
    then (inl (unique_violation active_resource), some m)
    else (inl (other unavailable), some m)

abbrev pub single : Statements Single
single = record {
  no_rows = foreign 0;
  insert = insert_in;
  select_code = λ c. select_in (λ l. l.code == c);
  select_resource = λ rt id. select_in (shares_row rt id);
  select_owned = λ c owner. select_in (owned_row c owner);
  update_status = λ c owner st. update_in (owned_row c owner) (λ l. record l { status = st });
  mark_deleted = λ c owner. delete_in (owned_row c owner);
  add_views = λ ids counts s. ret tt s;
  exists_owner = λ rt id user s. ret true s;
  select_snapshot = λ rt id s. throw (foreign 0) s;
  delete_submission = λ user id s. throw (foreign 0) s;
}

nowhere : (p : Link → Bool) (m : Link) → p m ≡ false → ¬ ((l : Link) × Row (m ∷ []) p l)
nowhere p m n (l, (inl is, t)) = true≢false (sym t ∙ (ap p is ∙ n))
nowhere p m n (l, (inr x, t)) = absurd x

selected : (p : Link → Bool) (s : Single) → IsSelect (foreign 0) rows_in p s (select_in p s)
selected p none = (inl (refl, λ (l, (x, t)). absurd x), refl)
selected p (some m) = elim (Bool-cases (p m)) [
  | inl q ↦ rw (q) ((inl refl, q), refl)
  | inr q ↦ rw (q) (inl (refl, nowhere p m q), refl)
]

updated :
    (p : Link → Bool) (f : Link → Link) (s : Single)
    → Post
        (update_in p f s)
        (λ l s'.
          (m : Link) × Row (rows_in s) p m × (l ≡ f m) × (rows_in s' ≡ change p f (rows_in s)))
        (λ e s'. NoRow (foreign 0) (rows_in s) p e × (rows_in s' ≡ rows_in s))
updated p f none = (inl (refl, λ (l, (x, t)). absurd x), refl)
updated p f (some m) = elim (Bool-cases (p m)) [
  | inl q ↦ rw (q) (m, (inl refl, q), refl, refl)
  | inr q ↦ rw (q) (inl (refl, nowhere p m q), refl)
]

marked :
    (p : Link → Bool) (s : Single)
    → Post
        (delete_in p s)
        (λ n s'.
          (t : Time) × (n ≡ matching p (rows_in s))
          × (rows_in s' ≡ change p (λ x. record x { deleted_at = some t }) (rows_in s)))
        (λ e s'. IsFault e × (rows_in s' ≡ rows_in s))
marked p none = (10, refl, refl)
marked p (some m) = elim (Bool-cases (p m)) [
  | inl q ↦ rw (q) (10, refl, refl)
  | inr q ↦ rw (q) (10, refl, refl)
]

-- What an INSERT of l may give.
abbrev IsInsert : Link → Single → (InsertError ⊎ (Int64 × Time)) × Single → Type 0
IsInsert l s (inr (id, at), s') = rows_in s' ≡ new_row l id at ∷ rows_in s
IsInsert l s (inl (other e), s') = IsFault e × (rows_in s' ≡ rows_in s)
IsInsert l s (inl (unique_violation name), s') =
    (((name ≡ active_resource)
        × ((m : Link) × Row (rows_in s) (shares_row l.resource_type l.resource_id) m))
      ⊎ (((name == active_resource) ≡ false)
          × ((m : Link) × Row (rows_in s) (λ x. x.code == l.code) m)))
    × (rows_in s' ≡ rows_in s)

other_name : (codes "uq_share_links_code" == active_resource) ≡ false
unfolding bytes_eq
other_name = refl

insert_in-IsInsert : (l : Link) (s : Single) → IsInsert l s (insert_in l s)
insert_in-IsInsert l none = refl
insert_in-IsInsert l (some m) = elim (Bool-cases (m.code == l.code)) [
  | inl q ↦ rw (q) (inr (other_name, (m, (inl refl, q))), refl)
  | inr q ↦ elim (Bool-cases (shares_row l.resource_type l.resource_id m)) [
    | inl t ↦ rw (q, t) (inl (refl, (m, (inl refl, t))), refl)
    | inr t ↦ rw (q, t) (tt, refl)
  ]
]

result-IsInsert :
    (l : Link) (s : Single) (r : InsertError ⊎ (Int64 × Time))
    → (insert_in l s).0 ≡ r
    → IsInsert l s (r, (insert_in l s).1)
result-IsInsert l s r e =
    subst (λ (x : InsertError ⊎ (Int64 × Time)). IsInsert l s (x, (insert_in l s).1)) e
      (insert_in-IsInsert l s)

pub single_laws : StatementLaws single
single_laws = record {
  rows = rows_in;
  keyed =
      λ s. elim s as (λ k. IsKeyed (rows_in k)) [ none ↦ tt | some m ↦ ((λ l x. absurd x), tt) ];
  code_selected = λ c s. selected (λ l. l.code == c) s;
  resource_selected = λ rt id s. selected (shares_row rt id) s;
  owned_selected = λ c owner s. selected (owned_row c owner) s;
  status_updated = λ c owner st s. updated (owned_row c owner) (λ l. record l { status = st }) s;
  deleted_marked = λ c owner s. marked (owned_row c owner) s;
  inserted = λ l s id at e. result-IsInsert l s (inr (id, at)) e;
  resource_refused = λ l s e.
      elim (result-IsInsert l s (inl (unique_violation active_resource)) e).0 [
        | inl (is, found) ↦
            (found, (result-IsInsert l s (inl (unique_violation active_resource)) e).1)
        | inr (n, found) ↦ absurd (true≢false (sym (bytes_eq_refl active_resource) ∙ n))
      ];
  code_refused = λ l s name e n. elim (result-IsInsert l s (inl (unique_violation name)) e).0 [
    | inl (is, found) ↦ absurd (
        true≢false (
          sym (
            subst (λ k. bytes_eq k active_resource ≡ true) (sym is) (bytes_eq_refl active_resource))
          ∙ n))
    | inr (q, found) ↦ (found, (result-IsInsert l s (inl (unique_violation name)) e).1)
  ];
  failed = λ l s e is. result-IsInsert l s (inl (other e)) is;
}

abbrev another_link : Link
another_link = record essay_link { code = code_b }
