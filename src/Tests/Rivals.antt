-- ===== src/Tests/Rivals.antt =====
-- The theorems on rival calls of Create, on the repository in memory.
use youpass_share_service.Base.{
  bytes_eq, false, insert, lookup, refl, some, true, update, ℕ, ◌≡◌, nat_eq, bytes_eq_instance,
}
use youpass_share_service.Domain.Error.{}
use youpass_share_service.Domain.Link.{new_link}
use youpass_share_service.Outcome.{}
use youpass_share_service.Share.Ports.{}
use youpass_share_service.Share.Contract.{}
use youpass_share_service.Share.Rivals.{
  Caller, Contest, access, asking, drawing, drawn, inserted, inserting, no_turn, none_yet, one_more,
  reread, rereading, resource_taken, returned,
}
use youpass_share_service.Share.Service.{obtain}
use youpass_share_service.Share.Rivals.Alone.{Follows, obtain-Follows}
use youpass_share_service.Share.Rivals.Winning.{one_link}
use youpass_share_service.Memory.Repository.{
  Repository, find_by_resource, first_shared, insert_link,
}
use youpass_share_service.Tests.{code_a, code_b, essay, essay_link, laws, shared, start, sv}
use youpass_share_service.Tests.Sharing.{start-IsCoherent}

abbrev at_once : Contest Repository
at_once = record { rows = start.repo; callers = λ _. asking }

abbrev after : Contest Repository → ℕ → Repository → Caller → Contest Repository
after w i s c = record { rows = s; callers = update w.callers i c }

abbrev both_asked : Contest Repository
both_asked = after (after at_once 0 start.repo (drawing 3)) 1 start.repo (drawing 3)

abbrev both_drew : Contest Repository
both_drew =
    after (after both_asked 0 start.repo (inserting 2 code_a)) 1 start.repo (inserting 2 code_b)

abbrev one_stored : Contest Repository
one_stored = after both_drew 0 shared.repo (returned essay_link true)

abbrev other_told : Contest Repository
other_told =
    after (after one_stored 1 shared.repo rereading) 1 shared.repo (returned essay_link false)

-- Two calls find no link and draw codes; the second to insert learns of the first.
one_link_example :
    (essay_link ≡ essay_link)
    × (laws.repo.table other_told.rows code_a ≡ some essay_link)
    × (true ≡ true → false ≡ true → ◌≡◌ {A = ℕ} 0 1)
unfolding find_by_resource first_shared insert_link new_link lookup insert bytes_eq
one_link_example =
    one_link laws.repo (λ _. essay) at_once {u = other_told} 0 1 essay_link essay_link true false
      start-IsCoherent.inv (λ k. refl)
      (one_more
        (one_more
          (one_more
            (one_more
              (one_more
                (one_more (one_more no_turn (access 0 (none_yet refl))) (access 1 (none_yet refl)))
                (access 0 (drawn code_a)))
              (access 1 (drawn code_b)))
            (access 0 (inserted {l = essay_link} refl)))
          (access 1 (resource_taken refl)))
        (access 1 (reread {l = essay_link} refl)))
      refl refl (refl, refl)

obtain-Follows_example : Follows sv essay start.repo asking (obtain sv essay start)
obtain-Follows_example = obtain-Follows sv essay start
