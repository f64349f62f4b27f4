-- ===== src/Tests/Races.antt =====
-- The theorem on interleaved requests, on the stores in memory.
use youpass_share_service.Base.{
  Option, bytes_eq, erase, lookup, refl, some, update, ◌≡◌, nat_eq, bytes_eq_instance,
}
use youpass_share_service.Domain.Error.{cache_miss}
use youpass_share_service.Domain.Link.{Link}
use youpass_share_service.Outcome.{final}
use youpass_share_service.Share.Contract.{}
use youpass_share_service.Share.Coherence.{Fits}
use youpass_share_service.Share.Races.{
  Race, deleted, fill, finished, found, here, holding, later, looking, miss, missed, write_back,
}
use youpass_share_service.Share.Races.Settling.{row_of, second_delete_settles}
use youpass_share_service.Memory.Cache.{Cache, get, invalidate, memory_cache, new_cache}
use youpass_share_service.Memory.Repository.{Repository, find_by_code, memory_links}
use youpass_share_service.Tests.{code_a, essay_link, laws, shared}
use youpass_share_service.Tests.Sharing.{shared-IsCoherent}

abbrev Both : Type 0
Both = Race Repository Cache

-- The owner's call has deleted the entry once, and no other request is under way.
abbrev racing : Both
racing = record { rows = shared.repo; cached = new_cache; readers = λ _. looking; writer = deleted }

abbrev emptied : Cache
emptied = final (memory_cache.invalidate code_a new_cache)

abbrev settled : Both
settled = record racing { cached = emptied; writer = finished }

abbrev one_missed : Both
one_missed = record settled { readers = update settled.readers 0 missed }

abbrev one_found : Both
one_found = record one_missed {
  rows = final (memory_links.find_by_code code_a shared.repo);
  readers = update one_missed.readers 0 (holding (some essay_link));
}

abbrev one_written : Both
one_written = record one_found {
  cached = fill memory_cache code_a (some essay_link) emptied;
  readers = update one_found.readers 0 looking;
}

none_held : (o : Option Link) → looking ≡ holding o → ⊥
none_held o e = cc

-- Then a request misses the cache, reads the row and writes it back.
second_delete_settles_example :
    Fits
      (laws.cache.entry one_written.cached code_a)
      (row_of laws.repo laws.cache code_a one_written)
unfolding lookup erase invalidate get find_by_code bytes_eq
second_delete_settles_example =
    second_delete_settles laws.repo laws.cache code_a racing emptied {u = one_written}
      shared-IsCoherent.inv (λ i o e. absurd (none_held o e)) refl
      (later
        (later (later here (miss 0 {e = cache_miss} refl refl (λ e. cc)))
          (found 0 {l = essay_link} refl refl))
        (write_back 0 {o = some essay_link} refl))
