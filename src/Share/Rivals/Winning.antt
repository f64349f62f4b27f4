-- ===== src/Share/Rivals/Winning.antt =====
-- create.go: however calls of Create interleave, a resource gets one link, made by one of them.
use youpass_share_service.Base.{
  Bool, Bool-cases, Bytes, ap, eq_of_some-eq, eqb, eqb_iff, false, false≢true, inl, inr, keep, some,
  subst, sym, true, update, update_all, ℕ, ◌∙◌, ◌≡◌,
}
use youpass_share_service.Domain.Error.{}
use youpass_share_service.Domain.Link.{Link}
use youpass_share_service.Outcome.{}
use youpass_share_service.Share.Service.{}
use youpass_share_service.Share.Ports.{CreateInput, LinkRepository}
use youpass_share_service.Share.Contract.{Holds, RepositoryLaws, Shares}
use youpass_share_service.Share.Rivals.Accesses.{
  Access-Accesses, AreRivals, IsBacked, IsWinner, Persist,
}
use youpass_share_service.Share.Rivals.{
  Caller, Contest, Turn, Turns, access, asking, drawing, failed, inserting, no_turn, one_more,
  rereading, returned,
}

won : (l : Link) (b : Bool) → b ≡ true → IsWinner (returned l b)
won l true e = tt
won l false e = absurd (false≢true e)

module _ {R : Type 0} {links : LinkRepository R} (repo : RepositoryLaws links)
    (inputs : ℕ → CreateInput) where
  record IsFair (w : Contest R) : Type 0 where
    inv : repo.Inv w.rows
    backed : (i : ℕ) → IsBacked repo w.rows (inputs i) (w.callers i)
    one :
        (i j : ℕ)
        → IsWinner (w.callers i)
        → IsWinner (w.callers j)
        → AreRivals (inputs i) (inputs j)
        → i ≡ j

  winner_backed :
      (rows : R) (input : CreateInput) (c : Caller)
      → IsWinner c
      → IsBacked repo rows input c
      → (d : Bytes) × Holds (repo.table rows) d (Shares input.resource_type input.resource_id)
  winner_backed rows input (returned l true) w (at, shares) = (l.code, (l, at, shares))
  winner_backed rows input (returned l false) w b = absurd w
  winner_backed rows input asking w b = absurd w
  winner_backed rows input (drawing n) w b = absurd w
  winner_backed rows input (inserting n code) w b = absurd w
  winner_backed rows input rereading w b = absurd w
  winner_backed rows input (failed e) w b = absurd w

  still-IsBacked :
      (rows s : R) (input : CreateInput) (c : Caller)
      → Persist repo rows s
      → IsBacked repo rows input c
      → IsBacked repo s input c
  still-IsBacked rows s input (returned l b) keep (at, shares) = (keep l.code l at, shares)
  still-IsBacked rows s input asking keep b = tt
  still-IsBacked rows s input (drawing n) keep b = tt
  still-IsBacked rows s input (inserting n code) keep b = tt
  still-IsBacked rows s input rereading keep b = tt
  still-IsBacked rows s input (failed e) keep b = tt

  one_update :
      (f : ℕ → Caller) (k : ℕ) (c : Caller)
      → ((i j : ℕ) → IsWinner (f i) → IsWinner (f j) → AreRivals (inputs i) (inputs j) → i ≡ j)
      → (IsWinner c → (j : ℕ) → IsWinner (f j) → AreRivals (inputs j) (inputs k) → ⊥)
      → (i j : ℕ) → IsWinner (update f k c i)
      → IsWinner (update f k c j)
      → AreRivals (inputs i) (inputs j)
      → i ≡ j
  one_update f k c old alone i j wi wj r = elim (Bool-cases (eqb k i)) [
    | inl p ↦ elim (Bool-cases (eqb k j)) [
      | inl q ↦ sym ((eqb_iff k i).0 p) ∙ (eqb_iff k j).0 q
      | inr q ↦
          let e : inputs i ≡ inputs k = ap inputs (sym ((eqb_iff k i).0 p)) in
          absurd (
            alone (rw p at wi) j (rw q at wj) (
              sym r.0 ∙ ap (λ (a : CreateInput). a.resource_type) e,
              sym r.1 ∙ ap (λ (a : CreateInput). a.resource_id) e,
            ))
    ]
    | inr p ↦ elim (Bool-cases (eqb k j)) [
      | inl q ↦
          let e : inputs j ≡ inputs k = ap inputs (sym ((eqb_iff k j).0 q)) in
          absurd (
            alone (rw q at wj) i (rw p at wi) (
              r.0 ∙ ap (λ (a : CreateInput). a.resource_type) e,
              r.1 ∙ ap (λ (a : CreateInput). a.resource_id) e,
            ))
      | inr q ↦ old i j (rw p at wi) (rw q at wj) r
    ]
  ]

  Turn-IsFair : {w u : Contest R} → Turn links inputs w u → IsFair w → IsFair u
  Turn-IsFair {w} (access i {s} {c} a) h =
      let (inv, keep, backed, alone) = Access-Accesses repo (inputs i) a h.inv in
      record {
        inv = inv;
        backed =
            update_all (λ j d. IsBacked repo s (inputs j) d) w.callers i c
              (λ j. still-IsBacked w.rows s (inputs j) (w.callers j) keep (h.backed j)) backed;
        one = one_update w.callers i c h.one (λ win j wj r.
            let (d, (l, at, (rt, id, live))) =
              winner_backed w.rows (inputs j) (w.callers j) wj (h.backed j) in
            alone win (d, (l, at, (rt ∙ r.0, id ∙ r.1, live))));
      }

  Turns-IsFair : {w u : Contest R} → Turns links inputs w u → IsFair w → IsFair u
  Turns-IsFair no_turn h = h
  Turns-IsFair (one_more r st) h = Turn-IsFair st (Turns-IsFair r h)

  -- On a repository that keeps its promises, and however any number of calls of `Create`
  -- interleave from their first access on: two that return for one resource return the same link,
  -- which is a row, and at most one of them says that it made it.
  pub one_link :
      (w : Contest R) {u : Contest R} (i j : ℕ) (l m : Link) (b d : Bool)
      → repo.Inv w.rows
      → ((k : ℕ) → w.callers k ≡ asking)
      → Turns links inputs w u
      → u.callers i ≡ returned l b
      → u.callers j ≡ returned m d
      → AreRivals (inputs i) (inputs j)
      → (l ≡ m) × (repo.table u.rows l.code ≡ some l) × (b ≡ true → d ≡ true → i ≡ j)
  one_link w {u} i j l m b d inv start turns ei ej rivals =
      let first : IsFair w = record {
        inv = inv;
        backed = λ k. rw (start k) tt;
        one = λ p q wp wq r. absurd (subst IsWinner (start p) wp);
      } in
      let fair = Turns-IsFair turns first in
      let (at_l, shares_l) = subst (IsBacked repo u.rows (inputs i)) ei (fair.backed i) in
      let (at_m, (rt, id, live)) = subst (IsBacked repo u.rows (inputs j)) ej (fair.backed j) in
      let same =
        (repo.sound u.rows fair.inv).unique l.code m.code l m at_l at_m
          (shares_l.0 ∙ (rivals.0 ∙ sym rt), shares_l.1 ∙ (rivals.1 ∙ sym id), shares_l.2) live in
      (
        eq_of_some-eq (sym at_l ∙ (ap (repo.table u.rows) same ∙ at_m)),
        at_l,
        λ eb ed.
            fair.one i j (subst IsWinner (sym ei) (won l b eb))
              (subst IsWinner (sym ej) (won m d ed)) rivals,
      )
