-- ===== src/Sql/Statements.antt =====
-- The texts of the statements of internal/services/stores.go, letter by letter.
use corncrake.Prelude.{String}
use corncrake.Text.{◌<>◌}

abbrev pub postgres_migrate : String
postgres_migrate =
    "\n\t\tCREATE TABLE IF NOT EXISTS submissions ("
    <> "\n\t\t\tsubmission_id    TEXT        PRIMARY KEY,"
    <> "\n\t\t\ttenant_id        TEXT        NOT NULL,"
    <> "\n\t\t\trun_reference    TEXT        NOT NULL,"
    <> "\n\t\t\tholding_number   TEXT        NOT NULL,"
    <> "\n\t\t\ttax_year         INTEGER     NOT NULL,"
    <> "\n\t\t\tquarter          INTEGER     NOT NULL,"
    <> "\n\t\t\treturn_type      TEXT        NOT NULL DEFAULT 'ORIGINAL',"
    <> "\n\t\t\tstatus           TEXT        NOT NULL DEFAULT 'RECEIVED',"
    <> "\n\t\t\treceived_at      TIMESTAMPTZ NOT NULL DEFAULT NOW(),"
    <> "\n\t\t\tsoftware_used    TEXT," <> "\n\t\t\tsoftware_version TEXT,"
    <> "\n\t\t\titem_count       INTEGER     NOT NULL,"
    <> "\n\t\t\tbody             JSONB       NOT NULL," <> "\n\t\t\twarnings         JSONB,"
    <> "\n\t\t\tcontact_email    TEXT," <> "\n\t\t\tcontact_phone    TEXT,"
    <> "\n\t\t\tcomments         TEXT" <> "\n\t\t);" <> "\n"
    <> "\n\t\tCREATE INDEX IF NOT EXISTS idx_submissions_holding"
    <> "\n\t\t\tON submissions (holding_number);" <> "\n"
    <> "\n\t\tCREATE INDEX IF NOT EXISTS idx_submissions_run"
    <> "\n\t\t\tON submissions (run_reference);" <> "\n"
    <> "\n\t\tCREATE INDEX IF NOT EXISTS idx_submissions_period"
    <> "\n\t\t\tON submissions (holding_number, tax_year, quarter);" <> "\n\t"

abbrev pub postgres_insert : String
postgres_insert =
    "\n\t\tINSERT INTO submissions ("
    <> "\n\t\t\tsubmission_id, tenant_id, run_reference, holding_number, tax_year, quarter,"
    <> "\n\t\t\treturn_type, status, received_at, software_used, software_version,"
    <> "\n\t\t\titem_count, body, warnings," <> "\n\t\t\tcontact_email, contact_phone, comments"
    <> "\n\t\t) VALUES ($1,$2,$3,$4,$5,$6,$7,'RECEIVED',$8,$9,$10,$11,$12,$13,$14,$15,$16)"
    <> "\n\t\tON CONFLICT (submission_id) DO NOTHING"

abbrev pub postgres_select_one : String
postgres_select_one =
    "\n\t\tSELECT submission_id, tenant_id, run_reference, holding_number, tax_year, quarter,"
    <> "\n\t\t       return_type, status, received_at, software_used, software_version,"
    <> "\n\t\t       item_count, body, warnings,"
    <> "\n\t\t       contact_email, contact_phone, comments" <> "\n\t\tFROM submissions"
    <> "\n\t\tWHERE submission_id = $1"

abbrev pub postgres_select_run : String
postgres_select_run =
    "\n\t\tSELECT submission_id, tenant_id, run_reference, quarter, tax_year,"
    <> "\n\t\t       return_type, status, received_at, item_count" <> "\n\t\tFROM submissions"
    <> "\n\t\tWHERE run_reference = $1" <> "\n\t\tORDER BY received_at DESC"

abbrev pub postgres_select_list : String
postgres_select_list =
    "\n\t\tSELECT submission_id, tenant_id, run_reference, quarter, tax_year,"
    <> "\n\t\t       return_type, status, received_at, item_count" <> "\n\t\tFROM submissions"
    <> "\n\t\tWHERE holding_number = $1"

abbrev pub sqlserver_migrate : String
sqlserver_migrate =
    "\n\t\tIF NOT EXISTS (" <> "\n\t\t\tSELECT 1 FROM sys.tables WHERE name = 'submissions'"
    <> "\n\t\t)" <> "\n\t\tCREATE TABLE submissions ("
    <> "\n\t\t\tsubmission_id    NVARCHAR(36)     NOT NULL PRIMARY KEY,"
    <> "\n\t\t\ttenant_id        NVARCHAR(100)    NOT NULL,"
    <> "\n\t\t\trun_reference    NVARCHAR(100)    NOT NULL,"
    <> "\n\t\t\tholding_number   NVARCHAR(15)     NOT NULL,"
    <> "\n\t\t\ttax_year         INT              NOT NULL,"
    <> "\n\t\t\tquarter          INT              NOT NULL,"
    <> "\n\t\t\treturn_type      NVARCHAR(10)     NOT NULL DEFAULT 'ORIGINAL',"
    <> "\n\t\t\tstatus           NVARCHAR(20)     NOT NULL DEFAULT 'RECEIVED',"
    <> "\n\t\t\treceived_at      DATETIME2        NOT NULL DEFAULT SYSUTCDATETIME(),"
    <> "\n\t\t\tsoftware_used    NVARCHAR(100)    NULL,"
    <> "\n\t\t\tsoftware_version NVARCHAR(20)     NULL,"
    <> "\n\t\t\titem_count       INT              NOT NULL,"
    <> "\n\t\t\tbody             NVARCHAR(MAX)    NOT NULL,"
    <> "\n\t\t\twarnings         NVARCHAR(MAX)    NULL,"
    <> "\n\t\t\tcontact_email    NVARCHAR(255)    NULL,"
    <> "\n\t\t\tcontact_phone    NVARCHAR(30)     NULL,"
    <> "\n\t\t\tcomments         NVARCHAR(500)    NULL" <> "\n\t\t);" <> "\n"
    <> "\n\t\tIF NOT EXISTS (" <> "\n\t\t\tSELECT 1 FROM sys.indexes"
    <> "\n\t\t\tWHERE name = 'idx_submissions_holding'" <> "\n\t\t)"
    <> "\n\t\tCREATE INDEX idx_submissions_holding" <> "\n\t\t\tON submissions (holding_number);"
    <> "\n" <> "\n\t\tIF NOT EXISTS (" <> "\n\t\t\tSELECT 1 FROM sys.indexes"
    <> "\n\t\t\tWHERE name = 'idx_submissions_run'" <> "\n\t\t)"
    <> "\n\t\tCREATE INDEX idx_submissions_run" <> "\n\t\t\tON submissions (run_reference);"
    <> "\n\t"

abbrev pub sqlserver_insert : String
sqlserver_insert =
    "\n\t\tIF NOT EXISTS (SELECT 1 FROM submissions WHERE submission_id = @p1)"
    <> "\n\t\tINSERT INTO submissions ("
    <> "\n\t\t\tsubmission_id, tenant_id, run_reference, holding_number, tax_year, quarter,"
    <> "\n\t\t\treturn_type, status, received_at, software_used, software_version,"
    <> "\n\t\t\titem_count, body, warnings," <> "\n\t\t\tcontact_email, contact_phone, comments"
    <> "\n\t\t) VALUES (@p1,@p2,@p3,@p4,@p5,@p6,@p7,'RECEIVED',@p8,@p9,@p10,@p11,@p12,@p13,@p14,@p15,@p16)"

abbrev pub sqlserver_select_one : String
sqlserver_select_one =
    "\n\t\tSELECT submission_id, tenant_id, run_reference, holding_number, tax_year, quarter,"
    <> "\n\t\t       return_type, status, received_at, software_used, software_version,"
    <> "\n\t\t       item_count, body, warnings,"
    <> "\n\t\t       contact_email, contact_phone, comments" <> "\n\t\tFROM submissions"
    <> "\n\t\tWHERE submission_id = @p1"

abbrev pub sqlserver_select_run : String
sqlserver_select_run =
    "\n\t\tSELECT submission_id, tenant_id, run_reference, quarter, tax_year,"
    <> "\n\t\t       return_type, status, received_at, item_count" <> "\n\t\tFROM submissions"
    <> "\n\t\tWHERE run_reference = @p1" <> "\n\t\tORDER BY received_at DESC"

abbrev pub sqlserver_select_list : String
sqlserver_select_list =
    "\n\t\tSELECT submission_id, tenant_id, run_reference, quarter, tax_year,"
    <> "\n\t\t       return_type, status, received_at, item_count" <> "\n\t\tFROM submissions"
    <> "\n\t\tWHERE holding_number = @p1"
