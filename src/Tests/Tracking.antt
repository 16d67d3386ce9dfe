-- ===== src/Tests/Tracking.antt =====
-- The tracking handlers at a store with one user in one channel.
use libsrsirc.Base.{
  length, ◌&&◌, ℕ, suc, ◌+◌, ◌≡◌, refl, sym, ap, subst, ◌∙◌, true, false, ◌⊎◌, inl, inr, Bool-cases,
  none, some, [], ◌∷◌, All, Bytes, codes, if◌then◌else◌, ◌==◌, replicate, arith,
}
use libsrsirc.Base.Mem.{ok, fault}
use libsrsirc.Cmap.{rfc1459, cmap_at, tolower, rangeinc}
use libsrsirc.Key.{pfxeq, strhash_small}
use libsrsirc.Proto.{Tokarr}
use libsrsirc.Skmap.{home, run_hash, Skmap, Allocs, fresh, put}
use libsrsirc.Bucklist
use libsrsirc.Skmap.View.{view, fresh-IsValid, get-view}
use libsrsirc.Skmap.Put.{Puts, put-Puts, cmap-put}
use libsrsirc.Skmap.Cursors.{Walkable}
use libsrsirc.Skmap.Walk.{entries}
use libsrsirc.Ucbase.Store.{User, Member, Chan, Grant, Ctx}
use libsrsirc.Ucbase.Store.{done}
use libsrsirc.Ucbase.Users.{new_user, nick_of}
use libsrsirc.Ucbase.Users.Add.{IsFresh}
use libsrsirc.Ucbase.Rename.{rename_user}
use libsrsirc.Ucbase.Rename.Outcomes.{Renames, rename_user-Renames, rename_user-IsSound}
use libsrsirc.Track.{handle_quit, handle_join, alloc_err}
use libsrsirc.Track.Quit.{Quits, handle_quit-Quits}
use libsrsirc.Track.Join.{handle_join-Enters}
use libsrsirc.Track.Enter.{Enters, Refuses}
use libsrsirc.Track.Names.{names_loop}
use libsrsirc.Track.Names.Lists.{Name, IsName, spaced, trailed, enter_names, names_loop-enter_names}
use libsrsirc.Logon.{same_nick}
use libsrsirc.Casecmp.{istrcmp, istrncmp, char_diff}
use libsrsirc.Proto.{has_byte}
use libsrsirc.Text.Ident.{ident2nick, strchr}
use libsrsirc.Text.{cstr, str_ncpy}
use libsrsirc.Ucbase.Rename.{new_chan}
use libsrsirc.Ucbase.Users.Add.{Memory, Memory-enough}
use libsrsirc.Key.Laws.{pfxeq_refl}
use libsrsirc.Ucbase.Sound.{IsSound, IsWhole, ChanIsThere}

abbrev joe : Bytes
joe = codes "joe"

abbrev plenty : Allocs
plenty = record { list = true; left = some 0; dup = true; node = some 5 }

-- The blocks have the addresses from 100 on.
abbrev grants : ℕ → Grant
grants n = record { block = some (n + 100); left = 0; put = plenty }

all-Memory : Memory grants
all-Memory n = (refl, refl, refl, refl)

abbrev empty_map : (V : Type 0) → Skmap V
empty_map V = fresh 4 rfc1459 0

module _ {V : Type 0} (key : Bytes) (a : V) where
  abbrev single : Skmap V
  single = (put plenty (empty_map V) (some key) (some a)).0

  single-Puts : Puts plenty (empty_map V) key a (put plenty (empty_map V) (some key) (some a))
  single-Puts = put-Puts plenty (empty_map V) (fresh-IsValid 4 rfc1459 0 (omega arith)).0 key a

  empty_look : (q : Bytes) → view (empty_map V) q ≡ none
  empty_look q =
      sym (get-view (empty_map V) q (fresh-IsValid 4 rfc1459 0 (omega arith)).0)
      ∙ (fresh-IsValid 4 rfc1459 0 (omega arith)).1 q

  stored : (put plenty (empty_map V) (some key) (some a)).1 ≡ true
  stored = single-Puts.returns ∙ Memory-enough grants 0 (empty_map V) key all-Memory

  single_reads : (q : Bytes) → view single q ≡ (if pfxeq key q rfc1459 then some a else none)
  unfolding fresh
  single_reads q =
      single-Puts.reads q
      ∙ ap (λ b. if b && pfxeq key q rfc1459 then some a else view (empty_map V) q) stored
      ∙ ap (λ o. if pfxeq key q rfc1459 then some a else o) (empty_look q)

  single_look :
      (q : Bytes) (b : V) → view single q ≡ some b → (a ≡ b) × (pfxeq key q rfc1459 ≡ true)
  single_look q b e = elim (Bool-cases (pfxeq key q rfc1459)) [
    | inl p ↦ (ground (arith, single_reads q), p)
    | inr p ↦ absurd (ground (arith, single_reads q))
  ]

  single_self : view single key ≡ some a
  single_self = single_reads key ∙ rw (pfxeq_refl rfc1459 key)

-- Joe, whose address is 5, is a member of the channel `#x`, whose address is 7.
abbrev joe_user : User
joe_user = record (new_user joe) { nchans = 1 }

abbrev hash_x : Chan
hash_x = new_chan (codes "#x") (single joe (record { user = 5; modepfx = codes "@" }))

abbrev store : Ctx
store = record {
  mynick = codes "me";
  casemap = rfc1459;
  types = record { chanmodes = codes "b" ∷ []; pfx_modes = codes "ov"; pfx_syms = codes "@+" };
  m005chantypes = codes "#";
  endofnames = true;
  chans = single (codes "#x") 7;
  users = single joe 5;
  chan_at = λ a. if a == 7 then some hash_x else none;
  user_at = λ a. if a == 5 then some joe_user else none;
  grants = grants;
  clock = 0;
}

hash_x-IsWhole : IsWhole store.users hash_x
unfolding fresh
hash_x-IsWhole = record {
  memb_valid = (single-Puts joe (record { user = 5; modepfx = codes "@" })).valid;
  memb_cmap =
      cmap-put plenty (empty_map Member) joe (record { user = 5; modepfx = codes "@" })
      ∙ sym (cmap-put plenty (empty_map ℕ) joe 5);
  memb_user = λ q m e.
      let (is, fits) = single_look joe (record { user = 5; modepfx = codes "@" }) q m e in
      single_reads joe 5 q ∙ rw fits (ap (λ (j : Member). some j.user) is);
}

one_entry : entries store.chans.buck ≡ (codes "#x", 7) ∷ []
unfolding put fresh home run_hash strhash_small cmap_at Bucklist.init entries
one_entry = refl

store-Walkable : Walkable store.chans
unfolding put fresh home run_hash strhash_small cmap_at Bucklist.init
store-Walkable = ((tt, tt), (tt, (tt, (tt, tt))))

store-IsSound : IsSound store
unfolding fresh
store-IsSound = record {
  users_valid = (single-Puts joe 5).valid;
  chans_valid = (single-Puts (codes "#x") 7).valid;
  chans_walkable = store-Walkable;
  user_of = λ q a e.
      let (is, fits) = single_look joe 5 q a e in
      (
        joe_user,
        subst (λ b. store.user_at b ≡ some joe_user) is refl,
        ap (pfxeq joe q) (cmap-put plenty (empty_map ℕ) joe 5) ∙ fits,
      );
  chan_of =
      subst (All (λ (e : Bytes × ℕ). ChanIsThere store e.1)) (sym one_entry)
        ((hash_x, refl, hash_x-IsWhole), tt);
}

abbrev joe_ident : Bytes
joe_ident = codes "Joe!j@example.org"

abbrev quit_msg : Tokarr
quit_msg = some joe_ident ∷ some (codes "QUIT") ∷ replicate 16 none

handle_quit-Quits_example :
    (y : Ctx) × (handle_quit true quit_msg 2 false store ≡ ok (0, y)) × Quits joe_ident store y
handle_quit-Quits_example =
    handle_quit-Quits true quit_msg 2 false joe_ident store refl store-IsSound

abbrev ann_ident : Bytes
ann_ident = codes "ann!a@example.org"

abbrev join_msg : Tokarr
join_msg = some ann_ident ∷ some (codes "JOIN") ∷ some (codes "#X") ∷ replicate 15 none

ann_other : same_nick true (nick_of ann_ident) store.mynick store.casemap ≡ false
unfolding same_nick istrcmp istrncmp char_diff tolower rangeinc ident2nick cstr str_ncpy strchr
ann_other = refl

hash_x-found : view store.chans (codes "#X") ≡ some 7
unfolding pfxeq cmap_at
hash_x-found = single_reads (codes "#x") 7 (codes "#X")

store-IsFresh : IsFresh store
store-IsFresh n a e = ground arith

ann_fits : pfxeq (nick_of ann_ident) ann_ident store.users.cmap ≡ true
unfolding pfxeq cmap_at put fresh ident2nick cstr str_ncpy strchr home run_hash strhash_small
    Bucklist.init
ann_fits = refl

handle_join-Enters_example :
    (y : Ctx) × (((handle_join true join_msg 3 false store ≡ ok (0, y))
        × Enters ann_ident [] 7 hash_x store y)
      ⊎ ((handle_join true join_msg 3 false store ≡ ok (alloc_err, y)) × Refuses 7 hash_x store y))
handle_join-Enters_example =
    handle_join-Enters true join_msg 3 false ann_ident (codes "#X") 7 hash_x store refl refl
      (omega arith) ann_other store-IsSound hash_x-found refl store-IsFresh ann_fits

joe_found : view store.users joe_ident ≡ some 5
unfolding pfxeq cmap_at
joe_found = single_reads joe 5 joe_ident

new_other : same_nick true (nick_of joe_ident) (codes "jim") store.casemap ≡ false
unfolding same_nick istrcmp istrncmp char_diff tolower rangeinc ident2nick cstr str_ncpy strchr
new_other = refl

rename_user-Renames_example :
    ((view store.users joe_ident ≡ none)
      × (rename_user true joe_ident (codes "jim") store ≡ ok ((false, false), store)))
    ⊎ ((u : ℕ) × (v : User) × (view store.users joe_ident ≡ some u)
        × (store.user_at u ≡ some v)
        × Renames true joe_ident (codes "jim") u v store)
rename_user-Renames_example =
    rename_user-Renames true joe_ident (codes "jim") store store-IsSound all-Memory

jim_free : view store.users (codes "jim") ≡ none
unfolding pfxeq cmap_at
jim_free = single_reads joe 5 (codes "jim")

rename_user-IsSound_example :
    (y : Ctx) × (rename_user true joe_ident (codes "jim") store ≡ ok ((true, false), y)) × IsSound y
rename_user-IsSound_example =
    rename_user-IsSound true joe_ident (codes "jim") store store-IsSound all-Memory 5 joe_user
      joe_found refl new_other jim_free

abbrev op : Name
op = record { symbol = some b'@'; nick = codes "ann" }

abbrev plain : Name
plain = record { symbol = none; nick = codes "joe" }

-- A name without a space is checked byte by byte.
names_fit : All (IsName (codes "@+")) (op ∷ plain ∷ [])
unfolding has_byte
names_fit = (
  record { no_space = omega arith; short = omega arith; plain = refl; known = refl },
  (record { no_space = omega arith; short = omega arith; plain = refl; known = tt }, tt),
)

names_loop-enter_names_example :
    (let p = spaced (op ∷ plain ∷ []) in
      names_loop (suc (length p)) (codes "@+") 7 p ≡ enter_names 7 (done 0) (op ∷ plain ∷ []))
    × (let p = trailed (op ∷ plain ∷ []) in
        names_loop (suc (length p)) (codes "@+") 7 p ≡ enter_names 7 (λ x. fault) (op ∷ plain ∷ []))
names_loop-enter_names_example = names_loop-enter_names (codes "@+") 7 op (plain ∷ []) names_fit
