-- ===== src/Auth/Users/Rules/Core.antt =====
-- What a call of the service of users leaves in the table, and the rules for a statement, for a
-- sequence of calls and for an error that is not passed on.
use komachi.Base.{
  ℕ, suc, ◌≡◌, Option, none, some, Text, Result, ok, err, pure, raise, ◌>>=◌, continue,
}
use komachi.Auth.Users.Store.{
  Users, UserError, Setup, World, Call, Statement, statement, at_step, answer_or_fault, or_failed,
}
use komachi.Auth.Users.Transactions.{attempt, new_hash, new_id, new_password}

abbrev pub Holds :
    {A : Type 0} → (Users → Type 0) → (A → Users → Type 0) → Result UserError A × Users → Type 0
Holds I Q (ok a, rows) = Q a rows
Holds I Q (err e, rows) = I rows

abbrev pub table_of : {A : Type 0} → Result UserError A × World → Result UserError A × Users
table_of (r, w) = (r, w.rows)

-- From `P`, the call leaves `Q` of its answer where it succeeds, and `I` where it fails.
pub record Leaves {A : Type 0} (I P : Users → Type 0) (m : Call A) (Q : A → Users → Type 0)
    : Type 0 where
  pub from : (w : World) → P w.rows → Holds I Q (table_of (m w))

abbrev pub Keeps : {A : Type 0} → (Users → Type 0) → Call A → Type 0
Keeps I m = Leaves I I m (λ _. I)

abbrev pub Relies : (Users → Type 0) → Setup → Type 0
Relies P c = (n : ℕ) (rows : Users) → P rows → P (c.others n rows)

-- No other request writes in between.
abbrev pub IsAlone : Setup → Type 0
IsAlone c = (n : ℕ) (rows : Users) → c.others n rows ≡ rows

pub IsAlone-Relies : (c : Setup) (P : Users → Type 0) → IsAlone c → Relies P c
IsAlone-Relies c P alone n rows h = rw (alone n rows) h

module _ (I : Users → Type 0) where
  pub pure-Leaves :
      {A : Type 0} {P : Users → Type 0} {Q : A → Users → Type 0} {a : A}
      → ((rows : Users) → P rows → Q a rows)
      → Leaves I P (pure a) Q
  pure-Leaves h = record { from = λ w p. h w.rows p }

  pub raise-Leaves :
      {A : Type 0} {P : Users → Type 0} {Q : A → Users → Type 0} {e : UserError}
      → ((rows : Users) → P rows → I rows)
      → Leaves {A = A} I P (raise e) Q
  raise-Leaves h = record { from = λ w p. h w.rows p }

  weaker_Holds :
      {A : Type 0} (Q R : A → Users → Type 0) (r : Result UserError A × Users)
      → ((a : A) (rows : Users) → Q a rows → R a rows)
      → Holds I Q r
      → Holds I R r
  weaker_Holds Q R (ok a, rows) h q = h a rows q
  weaker_Holds Q R (err e, rows) h i = i

  pub weaker-Leaves :
      {A : Type 0} {P : Users → Type 0} {Q R : A → Users → Type 0} {m : Call A}
      → Leaves I P m Q
      → ((a : A) (rows : Users) → Q a rows → R a rows)
      → Leaves I P m R
  weaker-Leaves {Q = Q} {R = R} {m = m} h k = record {
    from = λ w p. weaker_Holds Q R (table_of (m w)) k (h.from w p);
  }

  error_Holds :
      {A : Type 0} (P : Users → Type 0) (Q : A → Users → Type 0) (r : Result UserError A × Users)
      → ((rows : Users) → P rows → I rows)
      → Holds P Q r
      → Holds I Q r
  error_Holds P Q (ok a, rows) h q = q
  error_Holds P Q (err e, rows) h p = h rows p

  -- a call that keeps what is known where it fails, too
  pub error-Leaves :
      {A : Type 0} {P : Users → Type 0} {Q : A → Users → Type 0} {m : Call A}
      → ((rows : Users) → P rows → I rows)
      → Leaves P P m Q
      → Leaves I P m Q
  error-Leaves {P = P} {Q = Q} {m = m} h k = record {
    from = λ w p. error_Holds P Q (table_of (m w)) h (k.from w p);
  }

  then_Holds :
      {A B : Type 0} (Q : A → Users → Type 0) (R : B → Users → Type 0) (f : A → Call B)
      → ((a : A) → Leaves I (Q a) (f a) R)
      → (r : Result UserError A × World) → Holds I Q (table_of r)
      → Holds I R (table_of (continue r f))
  then_Holds Q R f h (ok a, w) q = (h a).from w q
  then_Holds Q R f h (err e, w) i = i

  pub bind-Leaves :
      {A B : Type 0} {P : Users → Type 0} {Q : A → Users → Type 0} {R : B → Users → Type 0}
      {m : Call A} {f : A → Call B}
      → Leaves I P m Q
      → ((a : A) → Leaves I (Q a) (f a) R)
      → Leaves I P (m >>= f) R
  bind-Leaves {Q = Q} {R = R} {m = m} {f = f} h k = record {
    from = λ w p. then_Holds Q R f k (m w) (h.from w p);
  }

  stepped_Holds :
      {A : Type 0} (Q : A → Users → Type 0) (n : ℕ) (r : Result UserError A × Users)
      → Holds I Q r
      → Holds I Q (table_of (at_step n r))
  stepped_Holds Q n (ok a, rows) q = q
  stepped_Holds Q n (err e, rows) q = q

  statement_Holds :
      {A : Type 0} (P : Users → Type 0) (Q : A → Users → Type 0) (fault : Option UserError)
      (f : Statement A) (n : ℕ)
      → ((rows : Users) → P rows → I rows)
      → ((rows : Users) → P rows → Holds I Q (f rows))
      → (rows : Users) → P rows
      → Holds I Q (table_of (at_step n (answer_or_fault fault f rows)))
  statement_Holds P Q none f n weaken h rows p = stepped_Holds Q n (f rows) (h rows p)
  statement_Holds P Q (some e) f n weaken h rows p = weaken rows p

  statement_from :
      {A : Type 0} (P : Users → Type 0) (Q : A → Users → Type 0) (c : Setup) (f : Statement A)
      → Relies P c
      → ((rows : Users) → P rows → I rows)
      → ((rows : Users) → P rows → Holds I Q (f rows))
      → (w : World) → P w.rows
      → Holds I Q (table_of (statement c f w))
  unfolding statement
  statement_from P Q c f rely weaken h w p =
      statement_Holds P Q (c.fault w.step) f (suc w.step) weaken h (c.others w.step w.rows)
        (rely w.step w.rows p)

  pub statement-Leaves :
      {A : Type 0} {P : Users → Type 0} {Q : A → Users → Type 0} (c : Setup) (f : Statement A)
      → Relies P c
      → ((rows : Users) → P rows → I rows)
      → ((rows : Users) → P rows → Holds I Q (f rows))
      → Leaves I P (statement c f) Q
  statement-Leaves {P = P} {Q = Q} c f rely weaken h = record {
    from = statement_from P Q c f rely weaken h;
  }

  -- What is known of the table before, if the call fails and its error is not passed on.
  abbrev pub Attempted : {A : Type 0} → (A → Users → Type 0) → Result UserError A → Users → Type 0
  Attempted Q (ok a) rows = Q a rows
  Attempted Q (err e) rows = I rows

  Attempted-Holds :
      {A : Type 0} (Q : A → Users → Type 0) (r : Result UserError A × World)
      → Holds I Q (table_of r)
      → Attempted Q r.0 r.1.rows
  Attempted-Holds Q (ok a, w) h = h
  Attempted-Holds Q (err e, w) h = h

  pub attempt-Leaves :
      {A : Type 0} {P : Users → Type 0} {Q : A → Users → Type 0} {m : Call A}
      → Leaves I P m Q
      → Leaves I P (attempt m) (Attempted Q)
  attempt-Leaves {Q = Q} {m = m} h = record { from = λ w p. Attempted-Holds Q (m w) (h.from w p) }

  drawn_Holds :
      {A : Type 0} (P : Users → Type 0) (o : Option A) (w : World)
      → ((rows : Users) → P rows → I rows)
      → P w.rows
      → Holds I (λ _. P) (table_of (or_failed o w))
  drawn_Holds P none w weaken p = weaken w.rows p
  drawn_Holds P (some a) w weaken p = p

  module _ {P : Users → Type 0} (c : Setup) (weaken : (rows : Users) → P rows → I rows) where
    pub new_hash-Leaves : (password : Text) → Leaves I P (new_hash c password) (λ _. P)
    new_hash-Leaves password = record {
      from = λ w p. drawn_Holds P (c.hash w.step password) w weaken p;
    }

    pub new_id-Leaves : Leaves I P (new_id c) (λ _. P)
    new_id-Leaves = record { from = λ w p. drawn_Holds P (c.unique_id w.step) w weaken p }

    pub new_password-Leaves : Leaves I P (new_password c) (λ _. P)
    new_password-Leaves = record {
      from = λ w p. drawn_Holds P (c.random_password w.step) w weaken p;
    }
