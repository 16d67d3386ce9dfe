-- ===== src/Tests/Maps.antt =====
-- Runs of the character maps, the buckets and the hash map.
use libsrsirc.Base.{ℕ, ◌≡◌, refl, ◌↔◌, true, none, some, [], ◌∷◌, Bytes, codes, drop, All, arith}
use libsrsirc.Base.Mem.{ok, ◌>>=◌}
use libsrsirc.Cmap.{rfc1459, cmap_at, tolower}
use libsrsirc.Cmap.Laws.{twin, cmap-tolower-twin}
use libsrsirc.Key.{pfxeq, strhash_small, strhash_mid}
use libsrsirc.Key.Laws.{fold_key, pfxeq_iff, strhash-pfxeq}
use libsrsirc.Bucklist
use libsrsirc.Bucklist.{Node, Bucklist, insert, next, del_iter}
use libsrsirc.Bucklist.Cursor.{next-del_iter-first}
use libsrsirc.Skmap.{home, run_hash, Skmap, Allocs, fresh, put, del, first}
use libsrsirc.Bucklist.Steps.{Distinct}
use libsrsirc.Skmap.View.{IsValid, nodes_of, fresh-IsValid}
use libsrsirc.Skmap.Walk.{Walk, entries, first-Walk}
use libsrsirc.Skmap.Put.{Puts, put-Puts}
use libsrsirc.Skmap.Del.{Dels, del-Dels}

cmap-tolower-twin_example :
    (cmap_at rfc1459 b'~' ≡ cmap_at rfc1459 b'^')
    ↔ (tolower b'~' (twin rfc1459) ≡ tolower b'^' (twin rfc1459))
cmap-tolower-twin_example =
    cmap-tolower-twin rfc1459 b'~' b'^' (omega arith, omega arith, omega arith)
      (omega arith, omega arith, omega arith)

abbrev nick_a : Bytes
nick_a = codes "Nick"

abbrev nick_b : Bytes
nick_b = codes "nicK!user@host"

pfxeq_iff_example :
    (pfxeq nick_a nick_b rfc1459 ≡ true) ↔ (fold_key rfc1459 nick_a ≡ fold_key rfc1459 nick_b)
pfxeq_iff_example = pfxeq_iff rfc1459 nick_a nick_b

-- A key ends at the nick's end, whatever the case.
pfxeq_nicks : pfxeq nick_a nick_b rfc1459 ≡ true
unfolding pfxeq cmap_at
pfxeq_nicks = refl

strhash-pfxeq_example :
    (strhash_small nick_a rfc1459 ≡ strhash_small nick_b rfc1459)
    × (strhash_mid nick_a rfc1459 ≡ strhash_mid nick_b rfc1459)
strhash-pfxeq_example = strhash-pfxeq rfc1459 nick_a nick_b pfxeq_nicks

abbrev two_nodes : Bucklist ℕ
two_nodes = record {
  nodes =
      record { addr = 8; key = codes "a"; val = 1 }
      ∷ record { addr = 9; key = codes "b"; val = 2 }
      ∷ [];
  iter = none;
  previter = none;
  cmap = rfc1459;
}

abbrev new_node : Node ℕ
new_node = record { addr = 7; key = nick_a; val = 3 }

next-del_iter-first_example :
    (del_iter (Bucklist.first two_nodes).0 >>= next)
    ≡ ok (
      record { nodes = drop 1 two_nodes.nodes; iter = none; previter = none; cmap = rfc1459 },
      none,
    )
next-del_iter-first_example =
    next-del_iter-first two_nodes (record { addr = 8; key = codes "a"; val = 1 })
      (drop 1 two_nodes.nodes) refl

abbrev new_map : Skmap ℕ
new_map = fresh 4 rfc1459 0

new_map-IsValid : IsValid new_map
new_map-IsValid = (fresh-IsValid 4 rfc1459 0 (omega arith)).0

abbrev plenty : Allocs
plenty = record { list = true; left = some 0; dup = true; node = some 5 }

put-Puts_example : Puts plenty new_map nick_a 3 (put plenty new_map (some nick_a) (some 3))
put-Puts_example = put-Puts plenty new_map new_map-IsValid nick_a 3

abbrev one_nick : Skmap ℕ
one_nick = (put plenty new_map (some nick_a) (some 3)).0

one_nick-IsValid : IsValid one_nick
one_nick-IsValid = (put-Puts plenty new_map new_map-IsValid nick_a 3).valid

del-Dels_example : Dels one_nick nick_b (del one_nick nick_b)
del-Dels_example = del-Dels one_nick one_nick-IsValid nick_b

abbrev plenty_more : Allocs
plenty_more = record { list = true; left = some 0; dup = true; node = some 6 }

abbrev two_nicks : Skmap ℕ
two_nicks = (put plenty_more one_nick (some (codes "op")) (some 4)).0

two_nicks-IsValid : IsValid two_nicks
two_nicks-IsValid = (put-Puts plenty_more one_nick one_nick-IsValid (codes "op") 4).valid

two_nicks-Distinct : All (λ b. Distinct (nodes_of b)) two_nicks.buck
unfolding put fresh home run_hash strhash_small cmap_at Bucklist.init
two_nicks-Distinct = ((tt, tt), (tt, (tt, ((tt, tt), tt))))

first-Walk_example : Walk (first two_nicks) (entries two_nicks.buck)
first-Walk_example = first-Walk two_nicks two_nicks-IsValid two_nicks-Distinct
