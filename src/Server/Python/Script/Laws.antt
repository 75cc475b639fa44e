-- ===== src/Server/Python/Script/Laws.antt =====
-- The script that server/src/services/python.rs makes of its template, as a whole.
use sand_box_rust.Base.{
  ℕ, ◌≡◌, refl, ap, ◌∙◌, true, List, [], ◌∷◌, some, to_string, to_string-digits, map,
}
use mathlib.Core.Option
use sand_box_rust.Server.Config.{Config}
use sand_box_rust.Server.Handlers.{RunCodeRequest}
use sand_box_rust.Server.Crypto.{encrypt_code, xor_from}
use sand_box_rust.Server.Template.{Place, Piece, replace, mark, render, fill, no_mark}
use sand_box_rust.Server.Template.Laws.{put, IsPlain, replace-render, put-IsPlain}
use sand_box_rust.Server.Python.{script_limits}
use sand_box_rust.Server.Python.Script.{
  allowed_paths_json, preload_line, fill_limits, build_script, value, digits-no_mark, bit-no_mark,
  put_all,
}

-- One more place, in a text that is a rendered template.
replace-next :
    (p : Place) (new s : List ℕ) (xs : List Piece)
    → IsPlain xs
    → s ≡ render xs
    → replace (mark p) new s ≡ render (map (put p new) xs)
replace-next p new s xs h e = ap (replace (mark p) new) e ∙ replace-render p new xs h

to_string-no_mark : (n : ℕ) → no_mark (to_string n) ≡ true
to_string-no_mark n = digits-no_mark (to_string n) (to_string-digits n)

encrypt_code-some :
    (encode : List ℕ → List ℕ) (code : List ℕ) (k : ℕ) (ks : List ℕ)
    → encrypt_code encode code (k ∷ ks) ≡ some (encode (xor_from 0 code (k ∷ ks)))
unfolding encrypt_code xor_from
encrypt_code-some encode [] k ks = refl
encrypt_code-some encode (b ∷ bs) k ks = refl

module _ (encode : List ℕ → List ℕ) (to_json : List (List ℕ) → List ℕ) where
  filled :
      (c : Config) (code key preload : List ℕ) (req : RunCodeRequest) (xs : List Piece)
      → IsPlain xs
      → no_mark (allowed_paths_json encode to_json c req) ≡ true
      → no_mark (preload_line c preload) ≡ true
      → replace
          (mark Place.code)
          (encode (xor_from 0 code key))
          (fill_limits encode to_json (render xs) c req preload)
        ≡ fill (value encode to_json c code preload req key) xs
  unfolding fill_limits script_limits
  filled c code key preload req xs h hj hp =
      let v = value encode to_json c code preload req key in
      let a = λ (p : Place) (ys : List Piece). map (put p (v p)) ys in
      let uids = a Place.uid xs in
      let gids = a Place.gid uids in
      let nets = a Place.enable_network gids in
      let caps = a Place.max_as nets in
      let modes = a Place.privilege caps in
      let paths = a Place.allowed_paths modes in
      let lines = a Place.preload paths in
      let h1 = put-IsPlain Place.uid (v Place.uid) xs (to_string-no_mark c.sandbox_uid) h in
      let h2 = put-IsPlain Place.gid (v Place.gid) uids (to_string-no_mark c.sandbox_gid) h1 in
      let h3 = put-IsPlain Place.enable_network (v Place.enable_network) gids (bit-no_mark _) h2 in
      let h4 = put-IsPlain Place.max_as (v Place.max_as) nets (to_string-no_mark _) h3 in
      let h5 = put-IsPlain Place.privilege (v Place.privilege) caps (bit-no_mark c.privilege) h4 in
      let h6 = put-IsPlain Place.allowed_paths (v Place.allowed_paths) modes hj h5 in
      let h7 = put-IsPlain Place.preload (v Place.preload) paths hp h6 in
      replace-next Place.code (v Place.code) _ lines h7 (
        replace-next Place.preload (v Place.preload) _ paths h6 (
          replace-next Place.allowed_paths (v Place.allowed_paths) _ modes h5 (
            replace-next Place.privilege (v Place.privilege) _ caps h4 (
              replace-next Place.max_as (v Place.max_as) _ nets h3 (
                replace-next Place.enable_network (v Place.enable_network) _ gids h2 (
                  replace-next Place.gid (v Place.gid) _ uids h1
                    (replace-next Place.uid (v Place.uid) _ xs h refl)))))))
      ∙ put_all v xs

  -- If the template's own text, the JSON of the paths and the line of the preload have no two opening
  -- braces in a row and none at their end, and the key is not empty: the script is the template with
  -- every place filled at once, each with its own value, and comes with the encoded key. So nothing
  -- that was put in for one place is taken for another.
  pub build_script-fill :
      (c : Config) (code preload : List ℕ) (k : ℕ) (ks : List ℕ) (req : RunCodeRequest)
      (xs : List Piece)
      → IsPlain xs
      → no_mark (allowed_paths_json encode to_json c req) ≡ true
      → no_mark (preload_line c preload) ≡ true
      → build_script encode to_json (render xs) c code preload req (k ∷ ks)
        ≡ some (fill (value encode to_json c code preload req (k ∷ ks)) xs, encode (k ∷ ks))
  unfolding build_script
  build_script-fill c code preload k ks req xs h hj hp =
      ap
        (Option.map (λ t. (
          replace (mark Place.code) t (fill_limits encode to_json (render xs) c req preload),
          encode (k ∷ ks),
        )))
        (encrypt_code-some encode code k ks)
      ∙ ap (λ s. some (s, encode (k ∷ ks))) (filled c code (k ∷ ks) preload req xs h hj hp)
