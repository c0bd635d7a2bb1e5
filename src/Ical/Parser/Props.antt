-- ===== src/Ical/Parser/Props.antt =====
-- crates/mgmt-ical/src/parser.rs: a property line that is written with quoted parameters reads back.
use mgmtui.Base.{
  ap, All-map, map, All, List, ◌∙◌, ℕ, ◌≡◌, refl, arith, Text, Bool, true, false, not, ◌&&◌, [],
  ◌∷◌, ◌++◌, some, eqb,
}
use mathlib.Core.List.{append-nil}
use mgmtui.Base.Chars.{split_once-append, Lacks}
use mgmtui.Ical.Parser.{
  prop_of, trim_quotes_start, ok, trim_quotes_end, parse_prop, trim_quotes, Prop, parse_params,
  quote, toggle, split_colon, split_unquoted,
}

-- No separator stands outside quotes.
abbrev Quiet : ℕ → Bool → Text → Type 0
Quiet sep q [] = Unit
Quiet sep q (c ∷ cs) = ((eqb c sep && not q) ≡ false) × Quiet sep (toggle q c) cs

-- Whether a quotation is open at the end.
abbrev after : Bool → Text → Bool
after q [] = q
after q (c ∷ cs) = after (toggle q c) cs

split_colon-append :
    (q : Bool) (xs v : Text)
    → Quiet b':' q xs
    → after q xs ≡ false
    → split_colon q (xs ++ (b':' ∷ v)) ≡ some (xs, v)
unfolding split_colon
split_colon-append q [] v h e = ground arith
split_colon-append q (c ∷ xs) v h e = rw (h.0, split_colon-append (toggle q c) xs v h.1 e)

split_unquoted-append :
    (q : Bool) (xs ys : Text)
    → Quiet b';' q xs
    → after q xs ≡ false
    → split_unquoted b';' q (xs ++ (b';' ∷ ys)) ≡ xs ∷ split_unquoted b';' false ys
unfolding split_unquoted
split_unquoted-append q [] ys h e = ground arith
split_unquoted-append q (c ∷ xs) ys h e =
    ground (arith, split_unquoted-append (toggle q c) xs ys h.1 e)

split_unquoted-last : (q : Bool) (xs : Text) → Quiet b';' q xs → split_unquoted b';' q xs ≡ xs ∷ []
unfolding split_unquoted
split_unquoted-last q [] h = refl
split_unquoted-last q (c ∷ xs) h = ground (arith, split_unquoted-last (toggle q c) xs h.1)

Quiet-append :
    (sep : ℕ) (q : Bool) (xs ys : Text)
    → Quiet sep q xs
    → Quiet sep (after q xs) ys
    → Quiet sep q (xs ++ ys)
Quiet-append sep q [] ys h k = k
Quiet-append sep q (c ∷ xs) ys h k = (h.0, Quiet-append sep (toggle q c) xs ys h.1 k)

after-append : (q : Bool) (xs ys : Text) → after q (xs ++ ys) ≡ after (after q xs) ys
after-append q [] ys = refl
after-append q (c ∷ xs) ys = after-append (toggle q c) xs ys

-- A text with no quotation mark leaves the quotation as it is.
after-Lacks : (q : Bool) (xs : Text) → Lacks quote xs → after q xs ≡ q
after-Lacks q [] h = refl
after-Lacks q (c ∷ xs) h = ground (arith, after-Lacks q xs h.1)

Quiet-quoted : (sep : ℕ) (xs : Text) → Lacks quote xs → Quiet sep true xs
Quiet-quoted sep [] h = tt
Quiet-quoted sep (c ∷ xs) h = ground (arith, Quiet-quoted sep xs h.1)

Quiet-Lacks : (sep : ℕ) (xs : Text) → Lacks quote xs → Lacks sep xs → Quiet sep false xs
Quiet-Lacks sep [] h k = tt
Quiet-Lacks sep (c ∷ xs) h k = ground (arith, Quiet-Lacks sep xs h.1 k.1)

trim_quotes_end-snoc : (v : Text) → Lacks quote v → trim_quotes_end (v ++ (quote ∷ [])) ≡ v
unfolding trim_quotes_end
trim_quotes_end-snoc [] h = refl
trim_quotes_end-snoc (c ∷ []) h = ground arith
trim_quotes_end-snoc (c ∷ d ∷ v) h = rw (trim_quotes_end-snoc (d ∷ v) h.1, trim_quotes_end)

trim_quotes-quoted : (v : Text) → Lacks quote v → trim_quotes (quote ∷ (v ++ (quote ∷ []))) ≡ v
unfolding trim_quotes trim_quotes_start
trim_quotes-quoted [] h = unfold trim_quotes_end in refl
trim_quotes-quoted (c ∷ v) h = rw h.0 (trim_quotes_end-snoc (c ∷ v) h)

abbrev pub show_param : Text × Text → Text
show_param (k, v) = k ++ (b'=' ∷ quote ∷ (v ++ (quote ∷ [])))

abbrev pub show_params : List (Text × Text) → Text
show_params [] = []
show_params (p ∷ ps) = b';' ∷ (show_param p ++ show_params ps)

-- A property line with every parameter value quoted.
abbrev pub show_prop : Prop → Text
show_prop p = (p.name ++ show_params p.params) ++ (b':' ∷ p.value)

abbrev pub IsName : Text → Type 0
IsName k = Lacks quote k × Lacks b':' k × Lacks b';' k

abbrev pub IsParam : Text × Text → Type 0
IsParam (k, v) = IsName k × Lacks b'=' k × Lacks quote v

-- The names hold no quotation mark, colon or semicolon (nor the parameters' an equals sign), and no
-- parameter value holds a quotation mark. Any other value may hold separators.
abbrev pub IsWritable : Prop → Type 0
IsWritable p = IsName p.name × All IsParam p.params

module _ (sep : ℕ) (other : eqb b'=' sep ≡ false) (unquoted : eqb quote sep ≡ false) where
  Quiet-show_param :
      (k v : Text)
      → Lacks quote k
      → Lacks sep k
      → Lacks quote v
      → Quiet sep false (show_param (k, v))
  Quiet-show_param k v a b h = Quiet-append sep false k _ (Quiet-Lacks sep k a b) (
      rw (after-Lacks false k a) (
        ground arith,
        (
          ground arith,
          Quiet-append sep true v (quote ∷ []) (Quiet-quoted sep v h)
              (rw (after-Lacks true v h) (ground arith, tt)),
        ),
      ))

after-show_param :
    (k v : Text) → Lacks quote k → Lacks quote v → after false (show_param (k, v)) ≡ false
after-show_param k v a h =
    after-append false k _
    ∙ rw (after-Lacks false k a) (after-append true v (quote ∷ []) ∙ rw (after-Lacks true v h))

split_unquoted-show_params :
    (xs : Text) (ps : List (Text × Text))
    → Quiet b';' false xs
    → after false xs ≡ false
    → All IsParam ps
    → split_unquoted b';' false (xs ++ show_params ps) ≡ xs ∷ map show_param ps
split_unquoted-show_params xs [] h e a = rw append-nil (split_unquoted-last false xs h)
split_unquoted-show_params xs ((k, v) ∷ ps) h e a =
    split_unquoted-append false xs (show_param (k, v) ++ show_params ps) h e
    ∙ ap (λ l. xs ∷ l)
        (split_unquoted-show_params (show_param (k, v)) ps
          (Quiet-show_param b';' refl refl k v a.0.0.0 a.0.0.2 a.0.2)
          (after-show_param k v a.0.0.0 a.0.2) a.1)

parse_params-show_param :
    (ps : List (Text × Text)) → All IsParam ps → parse_params (map show_param ps) ≡ ps
unfolding parse_params
parse_params-show_param [] a = refl
parse_params-show_param ((k, v) ∷ ps) a =
    rw (split_once-append b'=' k (quote ∷ (v ++ (quote ∷ []))) a.0.1, parse_params)
      (rw (trim_quotes-quoted v a.0.2, parse_params-show_param ps a.1))

module _ (sep : ℕ) (other : eqb b'=' sep ≡ false) (unquoted : eqb quote sep ≡ false)
    (different : eqb b';' sep ≡ false) where
  Quiet-show_params :
      (ps : List (Text × Text))
      → All (λ (k, v). Lacks quote k × Lacks sep k × Lacks quote v) ps
      → Quiet sep false (show_params ps) × (after false (show_params ps) ≡ false)
  Quiet-show_params [] a = (tt, refl)
  Quiet-show_params ((k, v) ∷ ps) a =
      let (calm, closed) = Quiet-show_params ps a.1 in
      let same = after-show_param k v a.0.0 a.0.2 in
      (
        (
          ground arith,
          Quiet-append sep false (show_param (k, v)) (show_params ps)
              (Quiet-show_param sep other unquoted k v a.0.0 a.0.1 a.0.2) (rw same calm),
        ),
        after-append false (show_param (k, v)) (show_params ps) ∙ rw same closed,
      )

-- A property with its parameter values in quotes reads back, separators in them included, if its names
-- hold no quotation mark or separator and no parameter value holds a quotation mark.
pub parse_prop-show_prop : (p : Prop) → IsWritable p → parse_prop (show_prop p) ≡ ok p
unfolding parse_prop
parse_prop-show_prop p w =
    let calm =
      Quiet-show_params b':' refl refl refl p.params
        (All-map _ _ (λ (k, v) h. (h.0.0, h.0.1, h.2)) p.params w.1) in
    let open_ = after-Lacks false p.name w.0.0 in
    rw
      (
        split_colon-append false (p.name ++ show_params p.params) p.value
            (Quiet-append b':' false p.name (show_params p.params)
              (Quiet-Lacks b':' p.name w.0.0 w.0.1) (rw open_ calm.0))
            (after-append false p.name (show_params p.params) ∙ rw open_ calm.1),
        parse_prop,
      )
      (ap ok (
        ap (λ l. prop_of l p.value)
          (split_unquoted-show_params p.name p.params (Quiet-Lacks b';' p.name w.0.0 w.0.2) open_
            w.1)
        ∙ unfold prop_of in rw (parse_params-show_param p.params w.1)))
