-- ===== src/Nick.antt =====
-- `lsi_ut_mut_nick` of libsrsirc/util.c, which makes another nick of one that is taken. The two
-- numbers that `rand` gives are arguments.
pub mod Laws
use libsrsirc.Base.{
  ℕ, ◌+◌, ◌-◌, ◌%◌, ◌&&◌, [], ◌∷◌, ◌++◌, Bytes, ◌==◌, if◌then◌else◌, ltb, leb, length, get_or, set,
}

mut_last : ℕ → ℕ → Bytes → ℕ → ℕ → Bytes
mut_last r1 r2 nick len last =
    if last == b'9'
    then set nick (r1 % (len - 1) + 1) (b'0' + r2 % 10)
    else if leb b'0' last && leb last b'8'
    then set nick (len - 1) (last + 1)
    else set nick (len - 1) b'0'

pub mut_nick : ℕ → ℕ → Bytes → Bytes
unfolding mut_last
mut_nick r1 r2 nick =
    if ltb (length nick) 9
    then nick ++ b'_' ∷ []
    else mut_last r1 r2 nick (length nick) (get_or nick (length nick - 1) 0)
