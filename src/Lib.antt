-- ===== src/Lib.antt =====
-- Vignemale: a Python SDK that declares infrastructure in code (endpoints, services, databases,
-- buckets, secrets), and a command line that reads the declarations without running them.
--
-- The parts and the files that model them (paths below runtimes/python/python/):
--
-- Prelude, Python   what the rest shares: Boolean tests, lists, texts and dictionaries in the order of
--                   insertion; Python values, exceptions, calls that return or raise, `os.environ`.
-- Api               vignemale/api.py. Errors: `APIError` and `HTTPError`. Registry: the lists that the
--                   decorators and `Service` (vignemale/service.py) fill, and the test that a module
--                   belongs to a service. Handler: the wrapper that `@api` puts round a handler,
--                   `_to_jsonable` and `_auth_adapter`. Serving: `_endpoints_to_serve`, `serve`,
--                   `serve_gateway`, the check of the port and `static_files`. Gateway: `_gateway_routes`.
-- Call              vignemale/call.py and vignemale/clients.py (Clients). Local: calls in the process.
--                   Sign, Trace, Http: the signed request, the trace it carries and the reading of the
--                   reply. A call in the process runs the
--                   very wrappers of Api/Handler; a reply raises the errors of Api/Errors.
-- Backends          `dsn` of vignemale/sqldb.py, `Bucket` of vignemale/bucket.py and `Secret` of
--                   vignemale/secret.py: which variables a declared name is read from.
-- Sqldb             vignemale/sqldb.py. Migrate: `SQLDatabase.migrate`. Transaction: the context manager.
-- Datamodel         vignemale/datamodel.py. Query: `sql()`, its named parameters and the arguments of a
--                   call. Columns: annotations, the schema and the personal data of a table. Table: the
--                   operations of a table (Crud), which ask the core and create the table before the
--                   first; Program is a run of them, with the reference that creates it before each,
--                   and Checked is about the reports of `check_sql_queries`.
-- Gdpr              vignemale/gdpr.py, over an interface of the row operations that it calls.
-- Log               vignemale/log.py.
-- Runtime           vignemale/__main__.py. Loading: `_load_app`. Workers: the parent process, as a
--                   machine over what `os.wait` and the signals bring. Start: `main`.
-- Cli               vignemale_cli/collect.py (Collect: Syntax is what griffe gives, Extract a module,
--                   Paths a directory, Meta the message), vignemale_cli/gateway.py (Gateway), which makes
--                   routes of the extraction, vignemale_cli/gen.py (Gen), which makes clients of it,
--                   vignemale_cli/link.py (Link) and vignemale_cli/init.py (Init), which write the files
--                   of a project (Files is the file system; Link/Plain is about texts whose only line
--                   break is \n), vignemale_cli/build.py (Build, with the
--                   Dockerfiles), vignemale_cli/devinfra.py (Devinfra: the containers; its Provision
--                   provides what the extraction declares and sets the variables that Backends reads),
--                   vignemale_cli/auth.py (Auth, with the login in Flow), whose credentials
--                   vignemale_cli/deploy.py (Deploy) uses, and vignemale_cli/cli.py (Commands), which puts them together. Poll is the
--                   wait for something until a deadline.
-- Tests             small inputs.
--
-- State: the request context and whatever handlers touch are a `Session`, passed along; the registry is
-- an `App`. A call that raises returns the exception beside the state. A dictionary is a list of pairs in
-- the order of insertion. A text is a list of code points; the case mapping and the character classes are
-- those of ASCII. Numbers are natural numbers except for the integers of Python values; nothing wraps.
-- All loops are over lists and are structural, but for the printing of a number: its fuel is one more
-- than the number, which Api/Serving/Port shows to be enough. The waits of Cli/Devinfra (milliseconds) and
-- Cli/Auth (seconds) run on fuel: a run that has used it up gives `none`, and Cli/Devinfra/Waits and
-- Cli/Auth/Login show that the time until the deadline, and one, is enough if the clock goes on. The
-- replacement in an error text has the length of the text, and one, as its fuel.
--
-- Parameters, since their code is not here: Pydantic (validation and dump), SHA-256 and HMAC, JSON, the
-- HTTP transport, the clock and random ids, sockets, the Rust core, griffe's loading, the database, the
-- file system, Docker, Git, the browser, `urlsplit` and the reading of `pyproject.toml`.
--
-- Not modelled: what only hands its arguments to the core or to another module, prints (progress
-- messages, banners and the texts of refusals included) or is generated; `argparse`; the registration of
-- a subclass of `Table`. `int()` reads a sign and digits; a declared name that is not a text is
-- dropped.
pub mod Prelude
pub mod Python
pub mod Api
pub mod Call
pub mod Backends
pub mod Sqldb
pub mod Datamodel
pub mod Gdpr
pub mod Log
pub mod Runtime
pub mod Cli
mod Tests
