-- ===== src/Msg/Outcomes.antt =====
-- Which results a message handler can have: rules that read them off its branches.
use libsrsirc.Base.{ℕ, ◌≡◌, Bool, true, false, List, [], ◌∷◌, refl, if◌then◌else◌}
use libsrsirc.Base.Mem.{Mem, ok, fault, ◌>>=◌}
use libsrsirc.Proto.{has_byte}

pub data Among (allowed : List ℕ) : ℕ → Type 0 where
  among : (r : ℕ) → has_byte allowed r ≡ true → Among allowed r

-- A handler that does not go wrong in memory has one of the results.
pub data Gives {A : Type 0} (allowed : List ℕ) : Mem (A × ℕ) → Type 0 where
  faulty : Gives allowed fault
  result : (x : A) (r : ℕ) → Among allowed r → Gives allowed (ok (x, r))

pub Among-if :
    (allowed : List ℕ) (b : Bool) (r s : ℕ)
    → Among allowed r
    → Among allowed s
    → Among allowed (if b then r else s)
Among-if allowed true r s p q = p
Among-if allowed false r s p q = q

pub Gives-ok :
    {A : Type 0} (allowed : List ℕ) (p : A × ℕ) → Among allowed p.1 → Gives allowed (ok p)
Gives-ok allowed (x, r) h = result x r h

pub Among-pair :
    {A : Type 0} (allowed : List ℕ) (b : Bool) (r s : A × ℕ)
    → Among allowed r.1
    → Among allowed s.1
    → Among allowed (if b then r else s).1
Among-pair allowed true r s p q = p
Among-pair allowed false r s p q = q

pub Gives-if :
    {A : Type 0} (allowed : List ℕ) (b : Bool) (m n : Mem (A × ℕ))
    → Gives allowed m
    → Gives allowed n
    → Gives allowed (if b then m else n)
Gives-if allowed true m n p q = p
Gives-if allowed false m n p q = q

-- The rest of a handler whose first part has one of the results `first`.
pub Gives-then :
    {A B : Type 0} (first allowed : List ℕ) (m : Mem (A × ℕ)) (f : A × ℕ → Mem (B × ℕ))
    → Gives first m
    → ((x : A) (r : ℕ) → Among first r → Gives allowed (f (x, r)))
    → Gives allowed (m >>= f)
Gives-then first allowed _ f faulty p = faulty
Gives-then first allowed _ f (result x r a) p = p x r a

pub Gives-bind :
    {A B : Type 0} (allowed : List ℕ) (m : Mem B) (f : B → Mem (A × ℕ))
    → ((b : B) → Gives allowed (f b))
    → Gives allowed (m >>= f)
Gives-bind allowed (ok b) f p = p b
Gives-bind allowed fault f p = faulty

-- The results of handlers that end neither the logon nor the authentication, and the `fault`'s.
abbrev pub common : List ℕ
common = 0 ∷ 1 ∷ 3 ∷ 5 ∷ 9 ∷ 17 ∷ 129 ∷ 257 ∷ 4096 ∷ []

pub common_0 : Among common 0
unfolding has_byte
common_0 = among 0 refl

pub common_3 : Among common 3
unfolding has_byte
common_3 = among 3 refl

pub common_5 : Among common 5
unfolding has_byte
common_5 = among 5 refl

pub common_9 : Among common 9
unfolding has_byte
common_9 = among 9 refl

pub common_17 : Among common 17
unfolding has_byte
common_17 = among 17 refl

pub common_129 : Among common 129
unfolding has_byte
common_129 = among 129 refl

pub common_257 : Among common 257
unfolding has_byte
common_257 = among 257 refl

pub common_4096 : Among common 4096
unfolding has_byte
common_4096 = among 4096 refl

-- Those of a handler that may end the logon, and of one that may end the authentication.
abbrev pub logon_results : List ℕ
logon_results = 0 ∷ 1 ∷ 9 ∷ 512 ∷ []

abbrev pub sasl_results : List ℕ
sasl_results = 0 ∷ 1 ∷ 17 ∷ 1024 ∷ []

pub logon_9 : Among logon_results 9
unfolding has_byte
logon_9 = among 9 refl

pub logon_512 : Among logon_results 512
unfolding has_byte
logon_512 = among 512 refl

pub sasl_0 : Among sasl_results 0
unfolding has_byte
sasl_0 = among 0 refl

pub sasl_17 : Among sasl_results 17
unfolding has_byte
sasl_17 = among 17 refl

pub sasl_1024 : Among sasl_results 1024
unfolding has_byte
sasl_1024 = among 1024 refl

pub ruleset handler_rules = (
  Among-if, Among-pair, Gives-ok, Gives-if, Gives-bind, common_0, common_3, common_5, common_9,
  common_17, common_129, common_257, common_4096, logon_9, logon_512, sasl_0, sasl_17, sasl_1024,
)
