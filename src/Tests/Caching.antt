-- ===== src/Tests/Caching.antt =====
-- The caches over a few entries, and the theorems at them.
use nl2sqlcopy.Prelude.{
  ℕ, ◌-◌, ◌≤◌, ◌<◌, ◌≡◌, ◌≢◌, refl, ◌⊎◌, true, false, some, none, [], ◌∷◌, arith, ltb, length,
  if◌then◌else◌,
}
use nl2sqlcopy.Dict.{Dict, get, put, remove, contains}
use nl2sqlcopy.Text.{
  Text, codes, text_eq, decimal, drop_while, is_space, lower_char, split_on, keep_nonempty, join,
}
use nl2sqlcopy.Core.CacheKeys.{
  is_alnum, blank_runs, canonical_token, canonical_tokens, canonicalize_query_text,
}
use nl2sqlcopy.Core.CacheKeys.Laws.{canonicalize_idem}
use nl2sqlcopy.Core.Cache.Store.{
  Entry, Answer, key_text, oldest_from, oldest_key, read, make_room, write,
}
use nl2sqlcopy.Core.Cache.Sql
use nl2sqlcopy.Core.Cache.Sql.{SqlCache, is_ok}
use nl2sqlcopy.Core.Cache.Embed
use nl2sqlcopy.Core.Cache.Embed.{EmbedCache}
use nl2sqlcopy.Core.Cache.Semantic
use nl2sqlcopy.Core.Cache.Semantic.{Cached, SemanticCache}
use nl2sqlcopy.Core.Cache.Search.{NoneAbove, Holds, get_semantic-best}
use nl2sqlcopy.Core.Cache.Methods.{sql-get-set, get_exact-set, set-bounded, overwrite_evicts}
use nl2sqlcopy.Tests.Numbers.{whole}

program : Unit {0}
unfolding get put remove contains decimal drop_while is_space lower_char split_on keep_nonempty join
    is_alnum blank_runs canonical_token canonical_tokens canonicalize_query_text key_text
    oldest_from oldest_key read make_room write is_ok Embed.set Embed.get Semantic.set Semantic.key
    Semantic.get_exact
program = tt

canonical_run :
    canonicalize_query_text (codes " Show me the NEWEST orders, please: 10!")
    ≡ codes "latest orders 10"
unfolding program
canonical_run = refl

canonicalize_idem_example :
    canonicalize_query_text (canonicalize_query_text (codes "Show me the NEWEST orders"))
    ≡ canonicalize_query_text (codes "Show me the NEWEST orders")
canonicalize_idem_example = canonicalize_idem (codes "Show me the NEWEST orders")

-- The identity in the place of the digest.
abbrev md5 : Text → Text
md5 text = text

abbrev answer : Answer ℕ
answer = record { status = some "ok"; top_k = none; body = 7 }

abbrev empty : SemanticCache whole Text ℕ
empty = record { store = []; max_size = 2 }

abbrev stored : SemanticCache whole Text ℕ
stored = record {
  store =
      (
        codes "latest orders:5",
        record {
          payload = record { answer = record answer { top_k = some 5 }; embedding = some (2 ∷ []) };
          stamp = 10;
        },
      )
      ∷ [];
  max_size = 2;
}

abbrev asked : Text
asked = codes "Show the newest orders"

set_run : Semantic.set whole md5 empty asked 5 answer (some (2 ∷ [])) 10 ≡ some stored
unfolding program
set_run = refl

is_ok_run : is_ok answer ≡ true
unfolding program
is_ok_run = refl

same_canonical :
    canonicalize_query_text (codes "list recent orders!") ≡ canonicalize_query_text asked
unfolding program
same_canonical = refl

get_exact-set_example :
    (Semantic.get_exact whole md5 60 stored (codes "list recent orders!") 5 30).0
    ≡ (if ltb 60 (30 - 10) then none else some (record answer { top_k = some 5 }))
get_exact-set_example =
    get_exact-set whole md5 60 empty stored asked (codes "list recent orders!") 5 answer
      (some (2 ∷ [])) 10 30 is_ok_run set_run same_canonical

set-bounded_example :
    (c' : SemanticCache whole Text ℕ) × (Semantic.set whole md5 stored asked 5 answer none 12
      ≡ some c')
    × (length c'.store ≤ c'.max_size)
    × ((is_ok answer ≡ true) ⊎ (c' ≡ stored))
set-bounded_example =
    set-bounded whole md5 stored asked 5 answer none 12 (omega arith) (omega arith)

get_semantic-best_example :
    (((Semantic.get_semantic whole 60 2 stored (2 ∷ []) 5 none (λ k. 20)).0 ≡ none)
      × NoneAbove whole 60 (2 ∷ []) 5 (λ k. 20) 2 0 stored.store)
    ⊎ ((best : ℕ) × Holds whole 60
          (2 ∷ [])
          5
          (λ k. 20)
          2
          best
          (Semantic.get_semantic whole 60 2 stored (2 ∷ []) 5 none (λ k. 20)).0
          stored.store
        × NoneAbove whole 60 (2 ∷ []) 5 (λ k. 20) 2 best stored.store)
get_semantic-best_example = get_semantic-best whole 60 (2 ∷ []) 5 (λ k. 20) 2 stored none

abbrev no_vectors : EmbedCache Text ℕ
no_vectors = record { store = []; max_size = 1 }

abbrev one_vector : EmbedCache Text ℕ
one_vector = record {
  store = (codes "orders", record { payload = 3; stamp = 10 }) ∷ [];
  max_size = 1;
}

embed_set_run : Embed.set md5 60 no_vectors (codes "orders") 3 10 ≡ some one_vector
unfolding program
embed_set_run = refl

-- A full store whose older entry is not the one that is written again.
abbrev two_entries : Dict Text (Entry ℕ)
two_entries =
    (codes "old", record { payload = 1; stamp = 1 })
    ∷ (codes "new", record { payload = 2; stamp = 2 })
    ∷ []

abbrev one_left : Dict Text (Entry ℕ)
one_left = (codes "new", record { payload = 3; stamp = 9 }) ∷ []

known_run : contains two_entries (codes "new") ≡ true
unfolding program
known_run = refl

oldest_run : oldest_key two_entries ≡ some (codes "old")
unfolding program
oldest_run = refl

write_run : write 2 9 two_entries (codes "new") 3 ≡ some one_left
unfolding program
write_run = refl

words_differ : codes "new" ≢ codes "old"
words_differ e = cc ((text_eq.beq_iff (codes "new") (codes "old")).1 e)

overwrite_evicts_example :
    (contains one_left (codes "old") ≡ false) × (length one_left < length two_entries)
overwrite_evicts_example =
    overwrite_evicts 2 9 two_entries one_left (codes "new") (codes "old") 3 (omega arith) known_run
      oldest_run words_differ write_run

abbrev sql_empty : SqlCache Text ℕ
sql_empty = record { store = []; max_size = 2 }

abbrev sql_stored : SqlCache Text ℕ
sql_stored = record {
  store = (codes "latest orders:5", record { payload = answer; stamp = 10 }) ∷ [];
  max_size = 2;
}

sql_set_run : Sql.set md5 60 sql_empty asked 5 answer 10 ≡ some sql_stored
unfolding program Sql.set Sql.key
sql_set_run = refl

sql-get-set_example :
    (Sql.get md5 60 sql_stored (codes "list recent orders!") 5 30).0
    ≡ (if ltb 60 (30 - 10) then none else some answer)
sql-get-set_example =
    sql-get-set md5 60 sql_empty sql_stored asked (codes "list recent orders!") 5 answer 10 30
      is_ok_run sql_set_run same_canonical
