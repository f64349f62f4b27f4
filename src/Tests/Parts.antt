-- ===== src/Tests/Parts.antt =====
-- The theorems on the domain and the in-memory ports, on concrete data.
use youpass_share_service.Base.{
  All, Bytes, Int64, List, [], arith, bytes_eq, codes, insert, length, lookup, ltb, map, none, refl,
  take, true, ◌+◌, ◌<◌, ◌^◌, ◌↔◌, ◌∷◌, ◌≡◌, ◌≢◌, ◌⊎◌, nat_eq, bytes_eq_instance,
}
use youpass_share_service.Domain.Error.{already_shared, duplicate_code}
use youpass_share_service.Domain.Link.{Time, resource_writing}
use youpass_share_service.Domain.Link.Access.{}
use youpass_share_service.Domain.Viewer.{}
use youpass_share_service.Domain.Viewer.Bots.{}
use youpass_share_service.Domain.Viewer.Keys.{}
use youpass_share_service.Domain.Code.{Read, code_length, drawn, got, new_code, symbol, valid_code}
use youpass_share_service.Domain.Code.Sampling.{accepted, delivered, new_code_total}
use youpass_share_service.Domain.Code.Format.{
  IsSymbol, new_code-valid_code, sources, symbol_uniform, valid_code_iff,
}
use youpass_share_service.Outcome.{Post, ret}
use youpass_share_service.Share.Contract.{Holds, IsFault, Shares, write}
use youpass_share_service.Memory.Repository.{first_shared, insert_link}
use youpass_share_service.Memory.Repository.Laws.{HasTidyRows, insert_lem, rows}
use youpass_share_service.Memory.Limiter.{allow}
use youpass_share_service.Memory.Limiter.Counting.{allow-allow_all, allow_all, uses}
use youpass_share_service.Memory.Views.{}
use youpass_share_service.Memory.Views.Counting.{}
use youpass_share_service.Tests.{code_a, essay_link, shared, start}

-- Two reads; the bytes 250 and 255 are too large.
abbrev two_reads : List Bytes
two_reads = (250 ∷ 0 ∷ 61 ∷ 62 ∷ 247 ∷ []) ∷ (1 ∷ 2 ∷ 255 ∷ 3 ∷ 4 ∷ 5 ∷ []) ∷ []

drawing : new_code (map got two_reads) ≡ drawn (codes "0z0z1234") []
unfolding new_code
drawing = refl

new_code_total_example :
    (rest : List Read) × (new_code (map got two_reads)
      ≡ drawn (take code_length (map symbol (accepted (delivered two_reads)))) rest)
new_code_total_example = new_code_total two_reads (omega arith)

new_code-valid_code_example : valid_code (codes "0z0z1234") ≡ true
new_code-valid_code_example = new_code-valid_code (map got two_reads) drawing

valid_code_iff_example :
    (valid_code (codes "abc-efgh") ≡ true)
    ↔ ((length (codes "abc-efgh") ≡ code_length) × All IsSymbol (codes "abc-efgh"))
valid_code_iff_example = valid_code_iff (codes "abc-efgh")

symbol_uniform_example : sources b'z' ≡ 4
symbol_uniform_example = symbol_uniform b'z' (61, omega arith, refl)

insert_lem_example :
    Post
      (insert_link essay_link start.repo)
      (λ l' s'.
        (rows start.repo code_a ≡ none)
        × (¬ ((c : Bytes) × Holds (rows start.repo) c (Shares resource_writing 101)))
        × ((id : Int64) × (t : Time) × (l' ≡ record essay_link { id = id; created_at = t }))
        × (rows s' ≡ write (rows start.repo) code_a l')
        × HasTidyRows s')
      (λ e s'.
        (((e ≡ duplicate_code) × (rows start.repo code_a ≢ none))
          ⊎ (((e ≡ already_shared)
                × ((c : Bytes) × Holds (rows start.repo) c (Shares resource_writing 101)))
              ⊎ IsFault e))
        × (rows s' ≡ rows start.repo)
        × HasTidyRows s')
insert_lem_example = insert_lem essay_link start.repo refl tt

inserting : insert_link essay_link start.repo ≡ ret essay_link shared.repo
unfolding insert_link first_shared lookup insert
inserting = refl

shared_tidy : HasTidyRows shared.repo
shared_tidy =
    let (_, _, _, _, tidy) = rw (inserting, Post) at (insert_lem essay_link start.repo refl tt) in
    tidy

abbrev callers : List Bytes
callers = codes "ip1" ∷ codes "ip2" ∷ codes "ip1" ∷ []

few : uses (codes "ip1") callers + 1 < 2 ^ 63
unfolding uses bytes_eq
few = omega arith

allow-allow_all_example :
    allow (codes "ip1") 2 (allow_all 2 callers)
    ≡ ret (ltb (uses (codes "ip1") callers) 2) (allow_all 2 (codes "ip1" ∷ callers))
allow-allow_all_example = allow-allow_all 2 (codes "ip1") callers (omega arith) few
