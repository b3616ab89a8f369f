-- ===== src/Examples/Streams.antt =====
-- The theorems on streams, at a body that breaks after two bytes and a second proxy that has the rest.
use proxy_systems.Common.{◌≤◌, ℕ, refl, true, List, [], ◌∷◌, arith, All, ◌≡◌}
use proxy_systems.Common.Text.{codes, has_text, text_eq}
use proxy_systems.Proxy.Entry.{new_entry}
use proxy_systems.Proxy.Store.{alloc}
use proxy_systems.Proxy.Pool.{new_pool, fill, push_new_entry, put_url}
use proxy_systems.Route.Def.{RouteDef, Selector}
use proxy_systems.Http.{Chunk, got, broken, Reply, replied}
use proxy_systems.Stream.Relay.{StreamWorld, stream_body}
use proxy_systems.Stream.Relay.Prefix.{IsPrefix}
use proxy_systems.Stream.Relay.Delivery.{AllHonest, stream_body-IsPrefix}
use proxy_systems.Stream.Relay.Asked.{stream_body-asks}
use proxy_systems.Examples.Fixtures.{
  Pairs, first_url, second_url, two_pool, two_store, route_with, pair_headers,
}

abbrev song : List ℕ
song = codes "music"

-- A server that does not read ranges: it sends the whole body again.
abbrev whole_again : Reply Pairs
whole_again = record {
  status = 200;
  headers = [];
  chunks = got (codes "mus") ∷ got (codes "ic") ∷ [];
}

abbrev song_world : StreamWorld Pairs
song_world = record {
  exchange = λ k e h extra. replied whole_again;
  now = λ k. 1000;
  break_now = λ k. 1000;
  elapsed = λ k. 20;
  pool_at = λ k. two_pool;
  receives = λ k. true;
}

abbrev first_part : List Chunk
first_part = got (codes "mu") ∷ broken (codes "reset") ∷ []

abbrev song_route : RouteDef
song_route = route_with Selector.best_latency

song-AllHonest : AllHonest song (omega arith) pair_headers song_world song_route []
song-AllHonest k e h n = (λ never. cc, λ _. (codes "ic", refl, ([], refl, tt)))

stream_body-IsPrefix_example :
    IsPrefix
      (stream_body pair_headers song_world song_route [] true 2 first_url [] two_store
        first_part).1.sent
      song
stream_body-IsPrefix_example =
    stream_body-IsPrefix song (omega arith) pair_headers song_world song_route [] true
      song-AllHonest 2 first_url [] two_store first_part (codes "sic", refl, refl)

two_urls :
    (k : ℕ)
    → All
        (λ a. has_text (first_url ∷ second_url ∷ []) (two_store.entry a).url ≡ true)
        (song_world.pool_at k).entries
unfolding new_pool fill push_new_entry alloc has_text text_eq new_entry put_url
two_urls k = (refl, (refl, tt))

stream_body-asks_example :
    (stream_body pair_headers song_world song_route [] true 3 first_url [] two_store
      first_part).1.tick
    ≤ 2
stream_body-asks_example =
    stream_body-asks pair_headers song_world song_route [] (first_url ∷ second_url ∷ []) true 3
      first_url [] two_store first_part two_urls
