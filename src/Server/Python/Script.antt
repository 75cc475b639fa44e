-- ===== src/Server/Python/Script.antt =====
-- `build_script` of server/src/services/python.rs. The template (runtime/prescript.py), the base64
-- engine, `serde_json` and the random key are arguments.
pub mod Laws
pub mod Fresh
use sand_box_rust.Base.{
  ℕ, ◌<◌, ◌≡◌, refl, ap, Bool, true, false, List, [], ◌∷◌, ◌++◌, Option, if◌then◌else◌, codes,
  to_string, All, map, arith,
}
use mathlib.Core.Option
use sand_box_rust.Server.Child.{Command, lib_path, path_var}
use sand_box_rust.Server.Config.{Config, proxy_env_vars}
use sand_box_rust.Server.Handlers.{RunCodeRequest}
use sand_box_rust.Server.Crypto.{encrypt_code, xor_from}
use sand_box_rust.Server.Template.{Place, Piece, replace, mark, render, fill, no_mark, text, place}
use sand_box_rust.Server.Template.Laws.{put}
use sand_box_rust.Server.Python.{script_limits}

-- A Boolean `as i32`, as text.
abbrev pub bit : Bool → List ℕ
bit true = codes "1"
bit false = codes "0"

-- `format!("{checked_preload}\n")`
abbrev pub preload_line : Config → List ℕ → List ℕ
preload_line c preload = (if c.enable_preload then preload else []) ++ 10 ∷ []

module _ (encode : List ℕ → List ℕ) (to_json : List (List ℕ) → List ℕ) where
  abbrev pub allowed_paths_json : Config → RunCodeRequest → List ℕ
  allowed_paths_json c req =
      if c.privilege then codes "[]" else to_json (script_limits c req).allowed_paths

  -- All places but the code, in the order of the calls of `replace`.
  unfoldable pub fill_limits : List ℕ → Config → RunCodeRequest → List ℕ → List ℕ
  fill_limits template c req preload =
      let l = script_limits c req in
      replace (mark Place.preload) (preload_line c preload) (
        replace (mark Place.allowed_paths) (allowed_paths_json c req) (
          replace (mark Place.privilege) (bit l.privilege) (
            replace (mark Place.max_as) (to_string l.max_as) (
              replace (mark Place.enable_network) (bit l.net) (
                replace (mark Place.gid) (to_string l.gid)
                  (replace (mark Place.uid) (to_string l.uid) template))))))

  -- The script and the encoded key; `none` where `encrypt_code` panics.
  unfoldable pub build_script :
      List ℕ → Config → List ℕ → List ℕ → RunCodeRequest → List ℕ → Option (List ℕ × List ℕ)
  build_script template c code preload req key =
      Option.map
        (λ encoded_code.
          (replace (mark Place.code) encoded_code (fill_limits template c req preload), encode key))
        (encrypt_code encode code key)

  -- The process of a fresh interpreter; `path` is the server's own PATH.
  unfoldable pub fresh_command :
      List ℕ → Config → Option (List ℕ) → List ℕ → List ℕ → RunCodeRequest → List ℕ → Option Command
  unfolding build_script
  fresh_command template c path code preload req key =
      Option.map
        (λ built. record {
          program = c.python_path;
          args = codes "-B" ∷ codes "-" ∷ lib_path ∷ built.1 ∷ [];
          env = path_var path ++ proxy_env_vars c.proxy;
          stdin = built.0;
          timeout = c.worker_timeout;
        })
        (build_script template c code preload req key)

  -- What each place stands for.
  abbrev pub value : Config → List ℕ → List ℕ → RunCodeRequest → List ℕ → Place → List ℕ
  value c code preload req key Place.uid = to_string c.sandbox_uid
  value c code preload req key Place.gid = to_string c.sandbox_gid
  value c code preload req key Place.enable_network = bit (script_limits c req).net
  value c code preload req key Place.max_as = to_string c.python_max_as_bytes
  value c code preload req key Place.privilege = bit c.privilege
  value c code preload req key Place.allowed_paths = allowed_paths_json c req
  value c code preload req key Place.preload = preload_line c preload
  value c code preload req key Place.code = encode (xor_from 0 code key)

digits-no_mark : (s : List ℕ) → All (λ c. c < 58) s → no_mark s ≡ true
digits-no_mark [] h = refl
digits-no_mark (c ∷ []) (h, _) = ground arith
digits-no_mark (c ∷ (d ∷ s)) (h, hs) = ground (arith, digits-no_mark (d ∷ s) hs)

bit-no_mark : (b : Bool) → no_mark (bit b) ≡ true
bit-no_mark true = refl
bit-no_mark false = refl

-- The places filled one by one are all filled.
put_all :
    (v : Place → List ℕ) (xs : List Piece)
    → render (
        map (put Place.code (v Place.code)) (
          map (put Place.preload (v Place.preload)) (
            map (put Place.allowed_paths (v Place.allowed_paths)) (
              map (put Place.privilege (v Place.privilege)) (
                map (put Place.max_as (v Place.max_as)) (
                  map
                    (put Place.enable_network (v Place.enable_network))
                    (map (put Place.gid (v Place.gid)) (map (put Place.uid (v Place.uid)) xs))))))))
      ≡ fill v xs
put_all v [] = refl
put_all v (text s ∷ xs) = ap (◌++◌ s) (put_all v xs)
put_all v (place Place.uid ∷ xs) = ap (◌++◌ (v Place.uid)) (put_all v xs)
put_all v (place Place.gid ∷ xs) = ap (◌++◌ (v Place.gid)) (put_all v xs)
put_all v (place Place.enable_network ∷ xs) = ap (◌++◌ (v Place.enable_network)) (put_all v xs)
put_all v (place Place.max_as ∷ xs) = ap (◌++◌ (v Place.max_as)) (put_all v xs)
put_all v (place Place.privilege ∷ xs) = ap (◌++◌ (v Place.privilege)) (put_all v xs)
put_all v (place Place.allowed_paths ∷ xs) = ap (◌++◌ (v Place.allowed_paths)) (put_all v xs)
put_all v (place Place.preload ∷ xs) = ap (◌++◌ (v Place.preload)) (put_all v xs)
put_all v (place Place.code ∷ xs) = ap (◌++◌ (v Place.code)) (put_all v xs)
