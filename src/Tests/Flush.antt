-- ===== src/Tests/Flush.antt =====
-- The theorems on a whole flush, on a Redis with at most one dirty link.
use youpass_share_service.Base.{
  Bool-cases, Bytes, Dict, Int64, List, Option, [], ap, arith, bytes_eq, codes, eq_of_some-eq, eqb,
  eqb_iff, erase, fun_ext, if◌then◌else◌, inl, inr, insert, lookup, lookup-erase, lookup-insert,
  none, none≢some, refl, some, sym, true, ℕ, ◌+◌, ◌<◌, ◌^◌, ◌∙◌, ◌∷◌, ◌≡◌, ◌⊎◌, nat_eq,
  bytes_eq_instance,
}
use youpass_share_service.Base.Decimal.{format_int}
use youpass_share_service.Base.Parse.{parse_int}
use youpass_share_service.Domain.Error.{err_is, err_is_refl, foreign}
use youpass_share_service.Outcome.{Outcome, Post, Post-mono, final, ret, throw}
use youpass_share_service.Redis.ViewCounter.{Counters, Flow, complete, flush, views_key}
use youpass_share_service.Redis.ViewCounter.Taking.{IsHeard, views_key_same}
use youpass_share_service.Redis.ViewCounter.Flushing.{FlowLaws, IsIn, IsPopped, gain}
use youpass_share_service.Redis.ViewCounter.Restoring.{IsWritten, all_views, counted}
use youpass_share_service.Redis.ViewCounter.Conserving.{EndsWith, flush_conserves}
use youpass_share_service.Redis.ViewCounter.Rounds.{HasNumbers, IsCalm, IsMarked}
use youpass_share_service.Redis.ViewCounter.Draining.{flush_drains}
use youpass_share_service.Tests.Store.{Store, at_key}

pub record Tally : Type 0 where
  pub counts : Store
  pub dirty : List Bytes

abbrev pub take_out : Option Bytes → Bytes → Store → Outcome Store Bytes
take_out none k s = throw (foreign 0) s
take_out (some v) k s = ret v (erase k s)

abbrev pub within : Tally → Outcome Store Bytes → Outcome Tally Bytes
within t (ret v s) = ret v (record t { counts = s })
within t (throw e s) = throw e (record t { counts = s })

abbrev pub first : List Bytes → List Bytes
first [] = []
first (a ∷ l) = a ∷ []

abbrev pub tallies : Counters Tally
tallies = record {
  nil_error = foreign 0;
  number_error = foreign 1;
  eval = λ m. m;
  set_nx = λ k ttl s. ret true s;
  incr = λ k s. ret 1 s;
  pf_add = λ k v s. ret tt s;
  expire = λ k ttl s. ret tt s;
  s_add = λ k ms s. ret tt (record s { dirty = first ms });
  s_pop = λ k n s. ret (first s.dirty) (record s { dirty = [] });
  get_del = λ k s. within s (take_out (lookup k s.counts) k s.counts);
  get = λ k s. ret [] s;
  incr_by = λ k n s. ret tt (record s { counts = insert k (format_int n) s.counts });
  pf_count = λ k s. ret 0 s;
}

abbrev pub View : Type 0
View = Int64 → ℕ

abbrev pub add_all : Dict Int64 Int64 → View → Outcome View (Unit {0})
add_all deltas v = ret tt (λ id. v id + gain deltas id)

pub took_within :
    (t : Tally) (k : Bytes) (o : Option Bytes)
    → lookup k t.counts ≡ o
    → Post
        (within t (take_out o k t.counts))
        (λ v s'.
          (at_key t.counts k ≡ some v)
          × (at_key s'.counts ≡ (λ (d : Bytes). if bytes_eq k d then none else at_key t.counts d)))
        (λ e s'. at_key s'.counts ≡ at_key t.counts)
took_within t k none e = refl
took_within t k (some v) e = (e, fun_ext (λ d. lookup-erase k d t.counts))

pub within_dirty :
    (t : Tally) (k : Bytes) (o : Option Bytes)
    → first (final (within t (take_out o k t.counts))).dirty ≡ first t.dirty
within_dirty t k none = refl
within_dirty t k (some v) = refl

pub pops_first :
    (t : Tally)
    → IsPopped
        (λ (u : Tally). at_key u.counts)
        (λ u. first u.dirty)
        t
        (first t.dirty)
        (record t { dirty = [] })
pops_first t = popping t.dirty
  where
    popping :
        (l : List Bytes)
        → IsPopped
            (λ (u : Tally). at_key u.counts)
            (λ u. first u.dirty)
            (record t { dirty = l })
            (first l)
            (record t { dirty = [] })
    popping [] =
        (refl, tt, (λ _. refl), refl, (λ b m. elim m [ inl p ↦ p | inr p ↦ p ]), (λ b m. inl m))
    popping (a ∷ l) = (
      refl,
      (tt, tt),
      (λ _. refl),
      refl,
      (λ b m. elim m [ inl p ↦ p | inr p ↦ absurd p ]),
      (λ b m. inl m),
    )

pub adds_first :
    (ids dirty : List Bytes) (b : Bytes) → IsIn b (first (first ids)) → IsIn b ids ⊎ IsIn b dirty
adds_first [] dirty b m = absurd m
adds_first (a ∷ ids) dirty b (inl p) = inl (inl p)
adds_first (a ∷ ids) dirty b (inr p) = absurd p

abbrev pub tally_laws : FlowLaws tallies add_all
tally_laws = record {
  take = record {
    value = λ t. at_key t.counts;
    taken = λ k t.
        Post-mono _ _ _ _ (tallies.get_del k t) (took_within t k (lookup k t.counts) refl)
          (λ v u h. h) (λ e u same. inl same);
  };
  members = λ t. first t.dirty;
  popped = pops_first;
  marked = λ ids t. (refl, adds_first ids (first t.dirty));
  left = λ k t. within_dirty t k (lookup k t.counts);
  increased = λ k n t e. (fun_ext (λ d. lookup-insert k d (format_int n) t.counts), refl);
  IsRow = λ _. Unit;
  views = λ v id. v id;
  added = λ deltas v m id r. refl;
}

tallies-IsHeard : IsHeard tallies tally_laws.take
tallies-IsHeard k t =
    Post-mono _ _ _ _ (tallies.get_del k t) (took_within t k (lookup k t.counts) refl) (λ v u h. tt)
      (λ e u same. same)

-- Link 1 has five views in Redis and is dirty.
abbrev pub waiting : Flow Tally View
waiting = record {
  counters = record { counts = (views_key 1, codes "5") ∷ []; dirty = format_int 1 ∷ [] };
  stored = λ id. 0;
}

pub waiting-IsWritten : IsWritten tally_laws waiting.counters
waiting-IsWritten b (inl e) = (1, omega arith, sym e)
waiting-IsWritten b (inr e) = absurd e

five_is : parse_int (codes "5") ≡ some 5
unfolding parse_int
five_is = refl

pub waiting-HasNumbers : HasNumbers tally_laws waiting.counters
unfolding lookup
waiting-HasNumbers i v e = elim (Bool-cases (bytes_eq (views_key 1) (views_key i))) [
  | inl q ↦ (5, ap parse_int (sym (eq_of_some-eq (rw q at e))) ∙ five_is)
  | inr q ↦ absurd (none≢some (rw q at e))
]

pub waiting-IsMarked : IsMarked tally_laws waiting.counters
unfolding lookup
waiting-IsMarked i hi = elim (Bool-cases (eqb 1 i)) [
  | inl q ↦ inr (inl (ap format_int ((eqb_iff 1 i).0 q)))
  | inr q ↦ inl (rw (views_key_same 1 i (omega arith) hi, q) refl)
]

flush_conserves_example :
    EndsWith tally_laws (all_views tally_laws waiting 1) 1 (flush tallies add_all 1 0 waiting)
flush_conserves_example =
    flush_conserves tally_laws tallies-IsHeard 1 (omega arith) tt (all_views tally_laws waiting 1) 1
      0 waiting waiting-IsWritten refl

pub tallies-IsCalm : IsCalm tally_laws
tallies-IsCalm = record {
  replies = λ k t. calm k t (lookup k t.counts) refl;
  pops = λ t. tt;
  stores = λ deltas v. tt;
}
  where
    calm :
        (k : Bytes) (t : Tally) (o : Option Bytes)
        → lookup k t.counts ≡ o
        → Post
            (within t (take_out o k t.counts))
            (λ _ _. Unit {0})
            (λ e _. (err_is e (foreign 0) ≡ true) × (at_key t.counts k ≡ none))
    calm k t none e = (err_is_refl (foreign 0), e)
    calm k t (some v) e = tt

flush_drains_example :
    (t : Int64) × (w : Flow Tally View) × (flush tallies add_all 1 0 waiting ≡ complete t w)
    × (first w.counters.dirty ≡ [])
    × ((i : Int64) → i < 2 ^ 64 → Unit {0} → w.stored i ≡ 0 + counted tally_laws waiting.counters i)
flush_drains_example =
    flush_drains tally_laws tallies-IsCalm 1 0 waiting waiting-IsWritten waiting-HasNumbers
      waiting-IsMarked (omega arith)
