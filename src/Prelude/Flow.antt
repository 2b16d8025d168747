-- ===== src/Prelude/Flow.antt =====
-- Handlers that an exception may leave: what has been done by then stays done.
-- The handler goes on, or an exception has left it.
pub data Flow (A : Type 0) : Type 0 where
  go crash : A → Flow A

infixl 5 ◌>>=◌
abbrev pub ◌>>=◌ : {A : Type 0} → Flow A → (A → Flow A) → Flow A
go a >>= f = f a
crash a >>= f = crash a

-- What holds where the handler has gone on, and what where an exception has left it.
abbrev pub Ends : {A : Type 0} → (A → Type 0) → (A → Type 0) → Flow A → Type 0
Ends P Q (go a) = P a
Ends P Q (crash a) = Q a

pub >>=-Ends :
    {A : Type 0} (P Q P' : A → Type 0) (m : Flow A) (f : A → Flow A)
    → Ends P Q m
    → ((a : A) → P a → Ends P' Q (f a))
    → Ends P' Q (m >>= f)
>>=-Ends P Q P' (go a) f h k = k a h
>>=-Ends P Q P' (crash a) f h k = h

pub Ends-weaken :
    {A : Type 0} (P Q P' Q' : A → Type 0) (m : Flow A)
    → ((a : A) → P a → P' a)
    → ((a : A) → Q a → Q' a)
    → Ends P Q m
    → Ends P' Q' m
Ends-weaken P Q P' Q' (go a) f g h = f a h
Ends-weaken P Q P' Q' (crash a) f g h = g a h
