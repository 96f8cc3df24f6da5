-- ===== src/Rawimg/Pointers.antt =====
-- `p[a + i]` and `(p + a)[i]` are one place.
use chdkptp_astro.Base.{
  ℕ, zero, suc, ◌+◌, ◌≤◌, List, [], ◌∷◌, ◌++◌, Option, none, some, get_elem?, take, drop, length,
  take-append_le, drop-append_le, take_all, drop_all, length-take, ◌≡◌, refl, arith, ◌∙◌, ap,
}
use chdkptp_astro.Base.Partial.{◌>>=◌}
use chdkptp_astro.Rawimg.Bytes.{store8, update_at}

pub get_elem?-drop : (a i : ℕ) (p : List ℕ) → get_elem? p (a + i) ≡ get_elem? (drop a p) i
get_elem?-drop zero i p = ap (get_elem? p) (omega arith)
get_elem?-drop (suc a) i [] = refl
get_elem?-drop (suc a) i (b ∷ p) =
    let e : suc a + i ≡ suc (a + i) = omega arith in rw e (get_elem?-drop a i p)

>>=-some : (m : Option (List ℕ)) → m ≡ (m >>= λ a. some a)
>>=-some none = refl
>>=-some (some a) = refl

>>=-assoc :
    (m : Option (List ℕ)) (f g : List ℕ → Option (List ℕ))
    → (m >>= f) >>= g ≡ (m >>= λ a. f a >>= g)
>>=-assoc none f g = refl
>>=-assoc (some a) f g = refl

pub store8-drop :
    (a i v : ℕ) (p : List ℕ) → store8 p (a + i) v ≡ update_at a p (λ addr. store8 addr i v)
store8-drop zero i v p = let e : 0 + i ≡ i = omega arith in rw e (>>=-some (store8 p i v))
store8-drop (suc a) i v [] = refl
store8-drop (suc a) i v (b ∷ p) =
    let e : suc a + i ≡ suc (a + i) = omega arith in
    rw (e, store8-drop a i v p)
      (>>=-assoc (store8 (drop a p) i v) (λ addr. some (take a p ++ addr))
        (λ rest. some (b ∷ rest)))

pub take-head : (a : ℕ) (p addr : List ℕ) → a ≤ length p → take a (take a p ++ addr) ≡ take a p
take-head a p addr h =
    let l = length-take a p in
    take-append_le a (take a p) addr (omega arith) ∙ take_all a (take a p) (omega arith)

pub drop-head : (a : ℕ) (p addr : List ℕ) → a ≤ length p → drop a (take a p ++ addr) ≡ addr
drop-head a p addr h =
    let l = length-take a p in
    drop-append_le a (take a p) addr (omega arith)
    ∙ ap (λ xs. xs ++ addr) (drop_all a (take a p) (omega arith))

-- Two writes through one pointer.
pub update_at-twice :
    (a : ℕ) (p : List ℕ) (f g : List ℕ → Option (List ℕ))
    → a ≤ length p
    → (update_at a p f >>= λ q. update_at a q g) ≡ update_at a p (λ addr. f addr >>= g)
update_at-twice a p f g h = after (f (drop a p))
  where
    after :
        (m : Option (List ℕ))
        → ((m >>= λ addr. some (take a p ++ addr)) >>= λ q. update_at a q g)
          ≡ ((m >>= g) >>= λ addr. some (take a p ++ addr))
    after none = refl
    after (some addr) = rw (take-head a p addr h, drop-head a p addr h) refl
