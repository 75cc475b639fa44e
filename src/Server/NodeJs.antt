-- ===== src/Server/NodeJs.antt =====
-- `validate_base64` and `build_script` of server/src/services/nodejs.rs: how the code reaches the
-- JavaScript program. The base64 crate's standard engine and the template are arguments.
pub mod Prescript
pub mod Run
use sand_box_rust.Base.{
  ℕ, ◌≡◌, refl, sym, ◌∙◌, Bool, true, ◌&&◌, ◌||◌, List, [], ◌∷◌, ◌++◌, Option, none, some, leb,
  ◌==◌, if◌then◌else◌, codes, All, length, drop, arith, Option-cases, inl, inr,
}
use sand_box_rust.Server.Template.{replace}

abbrev pub eval_head : List ℕ
eval_head = codes "eval(Buffer.from('"

abbrev pub eval_tail : List ℕ
eval_tail = codes "', 'base64').toString('utf-8'))"

unfoldable pub eval_code : List ℕ → List ℕ
eval_code code = eval_head ++ (code ++ eval_tail)

unfoldable pub build_script : List ℕ → List ℕ → List ℕ → List ℕ
build_script template code preload =
    replace (codes "{{code}}") (eval_code code) (replace (codes "{{preload}}") preload template)

module _ (decode : List ℕ → Option (List ℕ)) (encode : List ℕ → List ℕ) where
  unfoldable pub validate_base64 : List ℕ → Option (List ℕ)
  validate_base64 code = elim (decode code) [ some bytes ↦ some (encode bytes) | none ↦ none ]

-- The alphabet of standard base64 with padding.
abbrev pub is_base64 : ℕ → Bool
is_base64 c =
    (leb b'A' c && leb c b'Z')
    || ((leb b'a' c && leb c b'z')
        || ((leb b'0' c && leb c b'9') || (c == b'+' || (c == b'/' || c == b'='))))

-- The value of a JavaScript string literal without escapes, after its opening quote: up to the next
-- quote; a backslash or a line end is not such a literal.
abbrev pub js_literal : List ℕ → Option (List ℕ)
js_literal [] = none
js_literal (c ∷ cs) = elim (js_literal cs) [
  | some s ↦
      if c == 39 then some [] else if c == 92 || (c == 10 || c == 13) then none else some (c ∷ s)
  | none ↦ if c == 39 then some [] else none
]

js_literal-quote : (rest : List ℕ) → js_literal (39 ∷ rest) ≡ some []
js_literal-quote rest = elim (Option-cases (js_literal rest)) [
  | inl e ↦ rw e refl
  | inr (s, e) ↦ rw e refl
]

js_literal-append :
    (s rest : List ℕ) → All (λ c. is_base64 c ≡ true) s → js_literal (s ++ 39 ∷ rest) ≡ some s
js_literal-append [] rest h = js_literal-quote rest
js_literal-append (c ∷ s) rest (h, hs) = rw (js_literal-append s rest hs) (ground arith)

-- With a base64 engine whose output is in the base64 alphabet and decodes to what was encoded: if
-- validation accepts a request's code, the string literal that the script passes to `Buffer.from` is
-- exactly the canonical form, which decodes to the same bytes as the request's code; nothing in the
-- code can end the literal.
pub validate_base64-eval_code :
    (decode : List ℕ → Option (List ℕ)) (encode : List ℕ → List ℕ) (code canonical : List ℕ)
    → ((bs : List ℕ) → All (λ c. is_base64 c ≡ true) (encode bs))
    → ((bs : List ℕ) → decode (encode bs) ≡ some bs)
    → validate_base64 decode encode code ≡ some canonical
    → (js_literal (drop (length eval_head) (eval_code canonical)) ≡ some canonical)
      × (decode canonical ≡ decode code)
unfolding validate_base64 eval_code
validate_base64-eval_code decode encode code canonical alphabet back valid =
    accepted (decode code) refl valid
  where
    accepted :
        (o : Option (List ℕ))
        → decode code ≡ o
        → elim o [ some bytes ↦ some (encode bytes) | none ↦ none ] ≡ some canonical
        → (js_literal (drop (length eval_head) (eval_code canonical)) ≡ some canonical)
          × (decode canonical ≡ decode code)
    accepted none e v = absurd (ground arith)
    accepted (some bs) e v =
        let same : encode bs ≡ canonical = ground arith in
        rw (← same)
          (js_literal-append (encode bs) (drop 1 eval_tail) (alphabet bs), back bs ∙ sym e)
