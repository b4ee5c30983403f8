-- ===== src/Doh/Host/Ensures.antt =====
-- What holds of every value that an action of a request returns.
use sakullla_plugins.Base.{◌≡◌, refl, ap, subst, ok, err, panic}
use sakullla_plugins.Doh.Wire.{DohError, Parsed}
use sakullla_plugins.Doh.Host.{World, Serve, ◌>>=◌, bind_result, give, refuse}

-- Every value that an action returns has a property.
unfoldable pub Ensures : {A : Type 0} → (A → Type 0) → Serve A → Type 0
Ensures P act = (w : World) (a : _) → (act w).1 ≡ ok a → P a

-- What an action returns passes the property on to the rest.
pub >>=-Ensures :
    {A B : Type 0} (Q : A → Type 0) (P : B → Type 0) (act : Serve A) (next : A → Serve B)
    → Ensures Q act
    → ((a : A) → Q a → Ensures P (next a))
    → Ensures P (act >>= next)
unfolding Ensures ◌>>=◌
>>=-Ensures Q P act next first rest w b h = go (act w) refl h
  where
    go : (r : World × Parsed _) → act w ≡ r → (bind_result r next).1 ≡ ok b → P b
    go (v, panic) e d = cc
    go (v, err x) e d = cc
    go (v, ok a) e d = rest a (first w a (ap (λ r. r.1) e)) v b d

pub >>-Ensures :
    {A B : Type 0} (P : B → Type 0) (act : Serve A) (next : A → Serve B)
    → ((a : A) → Ensures P (next a))
    → Ensures P (act >>= next)
unfolding Ensures
>>-Ensures P act next rest = >>=-Ensures (λ _. Unit) P act next (λ w a h. tt) (λ a _. rest a)

pub give-Ensures : {A : Type 0} (P : A → Type 0) (a : A) → P a → Ensures P (give a)
unfolding Ensures give
give-Ensures P a p w b h = subst P (cc h) p

pub refuse-Ensures : {A : Type 0} (P : A → Type 0) (e : DohError) → Ensures P (refuse e)
unfolding Ensures refuse
refuse-Ensures P e w b h = cc
