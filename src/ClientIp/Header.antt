-- ===== src/ClientIp/Header.antt =====
-- rate_limit_ip.py: a header to which proxies have appended, and its hops.
use Prim.Native.Char.{Char, code}
use lifeflow.Prelude.{
  Bool, true, false, ◌≡◌, refl, ap, ◌∙◌, String, List, [], ◌∷◌, ◌++◌, none, some, find?, arith,
  ◌==◌, nat_eq, if◌then◌else◌, is_empty,
}
use lifeflow.ClientIp.{split_from, split, stripped, raw_hops, reverse}

-- A header to which a proxy has appended a text.
abbrev pub appended : String → String → String
appended String.[] t = String.◌∷◌ "," t
appended (String.◌∷◌ c s) t = String.◌∷◌ c (appended s t)

abbrev piece : Char → String × List String → String × List String
piece c (w, ws) = if code c == b',' then (String.[], w ∷ ws) else (String.◌∷◌ c w, ws)

piece-append :
    (c : Char) (w : String) (ws zs : List String)
    → piece c (w, ws ++ zs) ≡ ((piece c (w, ws)).0, (piece c (w, ws)).1 ++ zs)
piece-append c w ws zs = ground arith

split_from-appended :
    (s t : String) → split_from (appended s t) ≡ ((split_from s).0, (split_from s).1 ++ split t)
unfolding split_from split nat_eq
split_from-appended String.[] t = refl
split_from-appended (String.◌∷◌ c s) t =
    ap (piece c) (split_from-appended s t)
    ∙ piece-append c (split_from s).0 (split_from s).1 (split t)

stripped-append : (xs ys : List String) → stripped (xs ++ ys) ≡ stripped xs ++ stripped ys
unfolding stripped
stripped-append [] ys = refl
stripped-append (x ∷ xs) ys = ground (arith, stripped-append xs ys)

pub raw_hops-appended : (s t : String) → raw_hops (appended s t) ≡ raw_hops s ++ raw_hops t
unfolding raw_hops split
raw_hops-appended s t =
    ap (λ p. stripped (p.0 ∷ p.1)) (split_from-appended s t)
    ∙ stripped-append ((split_from s).0 ∷ (split_from s).1) (split t)

module _ {A : Type 0} (p : A → Bool) where
  pub find?-append-none : (xs ys : List A) → find? p xs ≡ none → find? p (xs ++ ys) ≡ find? p ys
  find?-append-none [] ys e = refl
  find?-append-none (x ∷ xs) ys e = ground (arith, find?-append-none xs ys, e)

  find?-append-some : (xs ys : List A) (a : A) → find? p xs ≡ some a → find? p (xs ++ ys) ≡ some a
  find?-append-some [] ys a e = absurd (ground arith)
  find?-append-some (x ∷ xs) ys a e = ground (arith, find?-append-some xs ys a, e)

  pub find?-reverse :
      (xs ys : List A) (a : A)
      → p a ≡ true
      → find? p (reverse ys) ≡ none
      → find? p (reverse (xs ++ a ∷ ys)) ≡ some a
  find?-reverse [] ys a e h = find?-append-none (reverse ys) (a ∷ []) h ∙ ground arith
  find?-reverse (x ∷ xs) ys a e h =
      find?-append-some (reverse (xs ++ a ∷ ys)) (x ∷ []) a (find?-reverse xs ys a e h)

pub is_empty-appended : (s t : String) → is_empty (appended s t) ≡ false
is_empty-appended String.[] t = refl
is_empty-appended (String.◌∷◌ _ _) t = refl
