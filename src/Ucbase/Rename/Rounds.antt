-- ===== src/Ucbase/Rename/Rounds.antt =====
-- The rounds of the loop of `lsi_ucb_rename_user` over the channels.
use libsrsirc.Base.{
  ℕ, ◌+◌, ◌≡◌, refl, sym, ap, subst, ◌∙◌, ◌⊎◌, inl, inr, true, false, ◌&&◌, Bool-cases,
  Option-cases, Option, none, some, List, ◌∷◌, All, Bytes, ◌==◌, if◌then◌else◌, ==_refl, ==_iff,
  is_some, arith,
}
use libsrsirc.Base.Mem.{ok}
use libsrsirc.Cmap.{Casemap}
use libsrsirc.Key.{pfxeq}
use libsrsirc.Key.Laws.{pfxeq_refl}
use libsrsirc.Skmap
use libsrsirc.Skmap.{Skmap, Allocs}
use libsrsirc.Skmap.View.{IsValid, view, get-view}
use libsrsirc.Skmap.Walk.{entries}
use libsrsirc.Skmap.Put.{Puts, put-Puts, cmap-put, enough}
use libsrsirc.Skmap.Del.{Dels, del-Dels, cmap-del}
use libsrsirc.Skmap.Cursors.{Same, Same-trans}
use libsrsirc.Skmap.Entries.{Holds, Holds-All}
use libsrsirc.Ucbase.Store.{Member, Chan, Grant, Ctx, update}
use libsrsirc.Ucbase.Channels.{get_memb}
use libsrsirc.Ucbase.Members.{put_memb, del_memb}
use libsrsirc.Ucbase.Rename.{rename_memb}

-- Every allocation of a put succeeds.
abbrev pub Plenty : (ℕ → Grant) → Type 0
Plenty g =
    (n : ℕ) → ((g n).put.list ≡ true) × ((g n).put.dup ≡ true) × (is_some (g n).put.node ≡ true)

pub Plenty-enough :
    {V : Type 0} (g : ℕ → Grant) (n : ℕ) (h : Skmap V) (k : Bytes)
    → Plenty g
    → enough (g n).put h k ≡ true
unfolding enough
Plenty-enough g n h k p = ground (arith, p n)

-- A lookup of `r` after the value `o` of `ident` has moved to `newnick`.
abbrev pub renamed : {V : Type 0} → Casemap → Bytes → Bytes → Option V → Bytes → Option V → Option V
renamed m ident newnick none r old = old
renamed m ident newnick (some n) r old =
    if pfxeq ident r m then none else if pfxeq newnick r m then some n else old

module _ (ident newnick : Bytes) (m : Casemap) (x : Ctx) where
  abbrev all : List (Bytes × ℕ)
  all = entries x.chans.buck

  -- A channel of the store whose member of the nick, if there was one, has its new nick.
  pub record Renamed (at : ℕ → Option Chan) (a : ℕ) : Type 0 where
    pub before : Chan
    pub after : Chan
    pub was : x.chan_at a ≡ some before
    pub is : at a ≡ some after
    pub else_same : record after { memb = before.memb } ≡ before
    pub valid : IsValid after.memb
    pub maps : after.memb.cmap ≡ m
    pub reads :
        (r : Bytes)
        → view after.memb r
          ≡ renamed m ident newnick (view before.memb ident) r (view before.memb r)

  abbrev pub Open : ℕ → Type 0
  Open a = (k : Chan) × (x.chan_at a ≡ some k) × IsValid k.memb × (k.memb.cmap ≡ m)

  -- Between two rounds, with the entries that are left.
  pub record Renaming (left : List (Bytes × ℕ)) (y : Ctx) : Type 0 where
    pub within : All (λ (e : Bytes × ℕ). Holds e.1 all) left
    pub opens : All (λ (e : Bytes × ℕ). Open e.1) all
    pub states :
        (a : ℕ) → Holds a all → (Holds a left × (y.chan_at a ≡ x.chan_at a)) ⊎ Renamed y.chan_at a
    pub others : (a : ℕ) → ¬ Holds a all → y.chan_at a ≡ x.chan_at a
    pub moved : Same x.chans y.chans
    pub rest : record y { chans = x.chans; chan_at = x.chan_at; clock = x.clock } ≡ x

  pub moves-Renaming :
      (es : List (Bytes × ℕ)) (y : Ctx) (h : Skmap ℕ)
      → Same y.chans h
      → Renaming es y
      → Renaming es (record y { chans = h })
  moves-Renaming es y h s d = record {
    within = d.within;
    opens = d.opens;
    states = d.states;
    others = d.others;
    moved = Same-trans d.moved s;
    rest = d.rest;
  }

  Renamed-at : (at at' : ℕ → Option Chan) (b : ℕ) → at' b ≡ at b → Renamed at b → Renamed at' b
  Renamed-at at at' b e t = record {
    before = t.before;
    after = t.after;
    was = t.was;
    is = e ∙ t.is;
    else_same = t.else_same;
    valid = t.valid;
    maps = t.maps;
    reads = t.reads;
  }

  -- The channel `k` is at hand and has the member `n`.
  module _ (a : ℕ) (k : Chan) (n : Member) (al : Allocs) (valid : IsValid k.memb)
      (maps : k.memb.cmap ≡ m) (memory : enough al k.memb newnick ≡ true)
      (has : view k.memb ident ≡ some n) where
    abbrev put_map : Skmap Member
    put_map = (Skmap.put al k.memb (some newnick) (some n)).0

    abbrev del_map : Skmap Member
    del_map = (Skmap.del put_map ident).0

    puts : Puts al k.memb newnick n (Skmap.put al k.memb (some newnick) (some n))
    puts = put-Puts al k.memb valid newnick n

    put_true : (Skmap.put al k.memb (some newnick) (some n)).1 ≡ true
    put_true = puts.returns ∙ memory

    dels : Dels put_map ident (Skmap.del put_map ident)
    dels = del-Dels put_map puts.valid ident

    put_cmap : put_map.cmap ≡ m
    put_cmap = cmap-put al k.memb newnick n ∙ maps

    moved_reads :
        (r : Bytes) → view del_map r ≡ renamed m ident newnick (view k.memb ident) r (view k.memb r)
    moved_reads r =
        let p : view put_map r ≡ (if pfxeq newnick r m then some n else view k.memb r) =
          puts.reads r
          ∙ ap (λ b. if b && pfxeq newnick r k.memb.cmap then some n else view k.memb r) put_true
          ∙ ap (λ c. if pfxeq newnick r c then some n else view k.memb r) maps in
        dels.reads r
        ∙ ap (λ c. if pfxeq ident r c then none else view put_map r) put_cmap
        ∙ rw (has, p)

    moved-Renamed :
        (at : ℕ → Option Chan)
        → x.chan_at a ≡ some k
        → at a ≡ some (record k { memb = del_map })
        → Renamed at a
    moved-Renamed at was is = record {
      before = k;
      after = record k { memb = del_map };
      was = was;
      is = is;
      else_same = refl;
      valid = dels.valid;
      maps = cmap-del put_map ident ∙ put_cmap;
      reads = moved_reads;
    }

  -- A channel with no member of the nick stays as it is.
  still-Renamed :
      (at : ℕ → Option Chan) (a : ℕ) (k : Chan)
      → x.chan_at a ≡ some k
      → at a ≡ some k
      → IsValid k.memb
      → k.memb.cmap ≡ m
      → view k.memb ident ≡ none
      → Renamed at a
  still-Renamed at a k was is valid maps absent = record {
    before = k;
    after = k;
    was = was;
    is = is;
    else_same = refl;
    valid = valid;
    maps = maps;
    reads = λ r. rw absent;
  }

  -- A channel that is done has no member of the nick.
  Renamed-absent :
      (at : ℕ → Option Chan) (a : ℕ) (t : Renamed at a) → view t.after.memb ident ≡ none
  Renamed-absent at a t = elim (Option-cases (view t.before.memb ident)) [
    | inl e ↦ ground (arith, t.reads ident)
    | inr (n, e) ↦ ground (arith, t.reads ident, pfxeq_refl m ident)
  ]

  module _ (memory : Plenty x.grants) where
    grants_same : (es : List (Bytes × ℕ)) (y : Ctx) → Renaming es y → y.grants ≡ x.grants
    grants_same es y d = ap (λ (c : Ctx). c.grants) d.rest

    -- Nothing is done in a round, since the channel has no member of the nick.
    skip-Renaming :
        (e : Bytes × ℕ) (es : List (Bytes × ℕ)) (y : Ctx)
        → Renaming (e ∷ es) y
        → Renamed y.chan_at e.1
        → Renaming es y
    skip-Renaming e es y d t = record {
      within = d.within.1;
      opens = d.opens;
      states = λ b h. elim (d.states b h) [
        | inl (inl eq, kept) ↦ inr (subst (Renamed y.chan_at) eq t)
        | inl (inr h', kept) ↦ inl (h', kept)
        | inr s ↦ inr s
      ];
      others = d.others;
      moved = d.moved;
      rest = d.rest;
    }

    -- The channel `k` is written.
    write-Renaming :
        (e : Bytes × ℕ) (es : List (Bytes × ℕ)) (y : Ctx) (at : ℕ → Option Chan) (c : ℕ)
        → Renaming (e ∷ es) y
        → Renamed at e.1
        → ((b : ℕ) → (b == e.1) ≡ false → at b ≡ y.chan_at b)
        → Renaming es (record y { chan_at = at; clock = c })
    write-Renaming e es y at c d t else_at = record {
      within = d.within.1;
      opens = d.opens;
      states = λ b h. elim (Bool-cases (b == e.1)) [
        | inl p ↦ inr (subst (Renamed at) (sym ((==_iff b e.1).0 p)) t)
        | inr p ↦ elim (d.states b h) [
          | inl (inl eq, kept) ↦ inr (subst (Renamed at) eq t)
          | inl (inr h', kept) ↦ inl (h', else_at b p ∙ kept)
          | inr s ↦ inr (Renamed-at y.chan_at at b (else_at b p) s)
        ]
      ];
      others = λ b out. elim (Bool-cases (b == e.1)) [
        | inl p ↦ absurd (out (subst (λ i. Holds i all) (sym ((==_iff b e.1).0 p)) d.within.0))
        | inr p ↦ else_at b p ∙ d.others b out
      ];
      moved = d.moved;
      rest = d.rest;
    }

    skip-run :
        (y : Ctx) (c : ℕ) (k : Chan)
        → y.chan_at c ≡ some k
        → IsValid k.memb
        → view k.memb ident ≡ none
        → rename_memb ident newnick c y ≡ ok (true, y)
    unfolding rename_memb get_memb
    skip-run y c k is valid absent = let found = get-view k.memb ident valid in ground arith

    -- A round of the loop.
    pub run-Renaming :
        (e : Bytes × ℕ) (es : List (Bytes × ℕ)) (y : Ctx)
        → Renaming (e ∷ es) y
        → (z : Ctx) × (rename_memb ident newnick e.1 y ≡ ok (true, z))
          × Renaming es z
          × (z.chans ≡ y.chans)
    unfolding rename_memb get_memb put_memb del_memb
    run-Renaming e es y d = elim (d.states e.1 d.within.0) [
      | inr t ↦ (
        y,
        skip-run y e.1 t.after t.is t.valid (Renamed-absent y.chan_at e.1 t),
        skip-Renaming e es y d t,
        refl,
      )
      | inl (left, kept) ↦
          let (k, was, valid, maps) = Holds-All Open e.1 all d.within.0 d.opens in
          let is : y.chan_at e.1 ≡ some k = kept ∙ was in
          elim (Option-cases (view k.memb ident)) [
            | inl absent ↦
                let t = still-Renamed y.chan_at e.1 k was is valid maps absent in
                (y, skip-run y e.1 k is valid absent, skip-Renaming e es y d t, refl)
            | inr (n, has) ↦
                let al = (y.grants y.clock).put in
                let found = get-view k.memb ident valid in
                let enough_al : enough al k.memb newnick ≡ true =
                  subst (λ (g : ℕ → Grant). enough (g y.clock).put k.memb newnick ≡ true)
                    (sym (grants_same (e ∷ es) y d))
                    (Plenty-enough x.grants y.clock k.memb newnick memory) in
                let stored = put_true e.1 k n al valid maps enough_al has in
                let k1 : Chan = record k { memb = put_map e.1 k n al valid maps enough_al has } in
                let k2 : Chan = record k { memb = del_map e.1 k n al valid maps enough_al has } in
                let at = update (update y.chan_at e.1 (some k1)) e.1 (some k2) in
                (
                  record y { chan_at = at; clock = y.clock + 1 },
                  ground (arith, ==_refl e.1),
                  write-Renaming e es y at (y.clock + 1) d
                      (moved-Renamed e.1 k n al valid maps enough_al has at was
                        (ground (arith, ==_refl e.1)))
                      (λ b ne. ground arith),
                  refl,
                )
          ]
    ]
