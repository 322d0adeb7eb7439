-- ===== src/Userdata/Quoting/Scrub.antt =====
-- The line of the join script that takes the token out of edgeadm's log.
use ens_provider.Prelude.{
  ℕ, ◌+◌, ◌≡◌, refl, false, ◌++◌, Str, codes, ◌==◌, count_if, count_if-append, arith,
}
use ens_provider.Config.{Config, Group}
use ens_provider.Inventory.{ok}
use ens_provider.Userdata.{breaks_quoting, script_of, built, build_userdata}
use ens_provider.Userdata.Base64.{base64_encode}

-- The program of that `sed`, once the shell has put the token into it.
unfoldable pub sed_program : Str → Str
sed_program token = codes "s/" ++ (token ++ codes "/REDACTED/g")

abbrev pub slashes : Str → ℕ
slashes = count_if (λ c. c == b'/')

-- A token without quotes and backslashes is accepted whatever slashes it holds, and each of them is
-- one more delimiter in the program that `sed` is given, which has three where the token has none.
pub sed_program-slashes :
    (cfg : Config) (g : Group) (token : Str)
    → breaks_quoting token ≡ false
    → (build_userdata (ok token) cfg g ≡ built (base64_encode (script_of cfg g token)))
      × (slashes (sed_program token) ≡ slashes token + 3)
unfolding build_userdata sed_program
sed_program-slashes cfg g token whole = (
  rw whole refl,
  omega (arith, count_if-append {0} (λ (c : ℕ). c == b'/') token (codes "/REDACTED/g")),
)
