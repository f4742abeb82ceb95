-- ===== src/Database/Choice.antt =====
-- Which backend the server starts with.
use mathlib.Core.Bool.{false≢true}
use corncrake.Prelude.{
  ◌≡◌, refl, ◌≢◌, ◌⊎◌, inl, inr, sym, ◌∙◌, String, true, ◌||◌, ◌==◌, eq_iff, Bool-cases,
}
use corncrake.Sql.Postgres
use corncrake.Sql.SqlServer
use corncrake.Sql.{Attempt, done, failed}
use corncrake.Database.{
  DbConfig, wrapped, Backend, memory_backend, postgres_backend, sqlserver_backend, Connector,
  connect, new_store,
}

wrapped-eq-done :
    {A B : Type 0} (what : String) (m : Attempt A) (f : A → Attempt B) {b : B}
    → wrapped what m f ≡ done b
    → (a : A) × (m ≡ done a) × (f a ≡ done b)
wrapped-eq-done what (done a) f h = (a, refl, h)
wrapped-eq-done what (failed e) f h = cc

done-injective : {A : Type 0} {a b : A} → done a ≡ done b → a ≡ b
done-injective e = cc

module _ {D : Type 0} (c : Connector D) where
  -- The named driver is opened with the connection string, answers, and makes the store.
  pub record Connects (name dsn : String) (new : D → Attempt D) (store : D) : Type 0 where
    pub given : dsn ≢ ""
    pub db : D
    pub opened : c.open_db name dsn ≡ done db
    pub alive : c.ping db ≡ done tt
    pub made : new db ≡ done store

  connect-Connects :
      (name dsn : String) (new : D → Attempt D) (backend : D → Backend D) {b : Backend D}
      → connect c name new backend dsn ≡ done b
      → (store : D) × Connects name dsn new store × (b ≡ backend store)
  connect-Connects name dsn new backend h = elim (Bool-cases (dsn == "")) [
    | inl empty ↦ cc (rw empty at h)
    | inr given ↦
        let (db, opened, h₁) = wrapped-eq-done _ (c.open_db name dsn) _ (rw given at h) in
        let (_, alive, h₂) = wrapped-eq-done _ (c.ping db) _ h₁ in
        let (store, made, h₃) = wrapped-eq-done _ (new db) _ h₂ in
        (
          store,
          record {
            given = λ e. false≢true (sym given ∙ (eq_iff _ _).1 e);
            db = db;
            opened = opened;
            alive = alive;
            made = made;
          },
          sym (done-injective h₃),
        )
  ]

  -- What the driver's name in the configuration stands for.
  pub data Chosen (cfg : DbConfig) : Backend D → Type 0 where
    in_memory : (cfg.driver ≡ "memory") ⊎ (cfg.driver ≡ "") → Chosen cfg memory_backend
    in_postgres :
        (store : D)
        → cfg.driver ≡ "postgres"
        → Connects "postgres" cfg.dsn (Postgres.new_store c.db) store
        → Chosen cfg (postgres_backend store)
    in_sqlserver :
        (store : D)
        → (cfg.driver ≡ "sqlserver") ⊎ (cfg.driver ≡ "mssql")
        → Connects "sqlserver" cfg.dsn (SqlServer.new_store c.db) store
        → Chosen cfg (sqlserver_backend store)

  or_iff : (s a b : String) → (s == a || s == b) ≡ true → (s ≡ a) ⊎ (s ≡ b)
  or_iff s a b h = elim (Bool-cases (s == a)) [
    | inl e ↦ inl ((eq_iff s a).0 e)
    | inr e ↦ inr ((eq_iff s b).0 (rw e at h))
  ]

  -- The server starts with a backend only if it is the one that the driver names: the memory store for
  -- "memory" or no name, and a database only once the connection string has been given, the database
  -- has been opened and has answered, and its tables are there. It never falls back on another.
  pub new_store-Chosen : (cfg : DbConfig) (b : Backend D) → new_store c cfg ≡ done b → Chosen cfg b
  unfolding new_store
  new_store-Chosen cfg b h = elim (Bool-cases (cfg.driver == "memory" || cfg.driver == "")) [
    | inl memory ↦
        rw (← done-injective (rw memory at h)) (in_memory (or_iff cfg.driver "memory" "" memory))
    | inr database ↦ elim (Bool-cases (cfg.driver == "postgres")) [
      | inl postgres ↦
          let (store, connects, same) =
            connect-Connects "postgres" cfg.dsn (Postgres.new_store c.db) postgres_backend
              (rw (database, postgres) at h) in
          rw same (in_postgres store ((eq_iff _ _).0 postgres) connects)
      | inr other ↦ elim (Bool-cases (cfg.driver == "sqlserver" || cfg.driver == "mssql")) [
        | inl sqlserver ↦
            let (store, connects, same) =
              connect-Connects "sqlserver" cfg.dsn (SqlServer.new_store c.db) sqlserver_backend
                (rw (database, other, sqlserver) at h) in
            rw same (in_sqlserver store (or_iff cfg.driver "sqlserver" "mssql" sqlserver) connects)
        | inr unknown ↦ cc (rw (database, other, unknown) at h)
      ]
    ]
  ]
