-- ===== src/Cli/Init/Templates.antt =====
-- The files that `vignemale_cli/init.py` writes, for the name of an app.
use vignemale.Prelude.{◌++◌}
use vignemale.Prelude.Text.{Text, codes}

-- APP_PY.format(app=app, slug=name)
unfoldable pub app_py : Text → Text → Text
app_py app name =
    (codes "\"\"\"")
    ++ (app
        ++ ((codes
              " — a Vignemale app.\n\nInfrastructure-from-Code: you write Python, Vignemale infers and provisions\nthe infra (local on `run`, cloud on `deploy`). Run:\n\n    vignemale run app.py\n    curl 127.0.0.1:8080/hello\n    curl -X POST 127.0.0.1:8080/greet -d '{\"name\":\"Ada\"}'\n\"\"\"\n\nfrom pydantic import BaseModel\n\nfrom vignemale import api, log\n\n\n@api(method=\"GET\", path=\"/hello\")\ndef hello() -> dict:\n    return {\"msg\": \"hi from ")
            ++ (app
                ++ ((codes
                      " 👋\"}\n\n\nclass Who(BaseModel):\n    name: str\n\n\n@api(method=\"POST\", path=\"/greet\")\ndef greet(body: Who) -> dict:\n    log.info(\"greet\", name=body.name)\n    return {\"msg\": f\"hello, {body.name}!\"}\n\n\n# ── Next step: a database, no config ───────────────────────────────────────\n# Uncomment this block — on `run`, Vignemale provisions a local Postgres all\n# by itself (docker) and sets the DSN. In prod, the same code targets a managed\n# database.\n#\n# from vignemale import SQLDatabase\n#\n# db = SQLDatabase(\"")
                    ++ (name
                        ++ (codes
                            "\")\n# db.execute(\"CREATE TABLE IF NOT EXISTS notes (id BIGSERIAL PRIMARY KEY, body TEXT)\")\n#\n# @api(method=\"GET\", path=\"/notes\")\n# def notes() -> dict:\n#     return {\"notes\": db.query(\"SELECT id, body FROM notes ORDER BY id\")}\n"))))))

-- PYPROJECT.format(slug=name)
unfoldable pub pyproject : Text → Text
pyproject name =
    (codes "[project]\nname = \"")
    ++ (name
        ++ ((codes
              "\"\nversion = \"0.1.0\"\nrequires-python = \">=3.11\"\ndependencies = [\"vignemale>=0.1.3\"]\n\n[tool.vignemale]\n# App name on Vignemale Cloud (git remote: /<app>.git).\napp = \"")
            ++ (name
                ++ (codes
                    "\"\n# mono  : a single container   ·   services : one container per service + gateway\ntopology = \"mono\"\n"))))

-- GITIGNORE
abbrev pub gitignore : Text
gitignore =
    codes
      "__pycache__/\n*.py[cod]\n.venv/\n.env\n# service clients generated by `vignemale gen`\nvignemale_clients/\n"

-- README.format(app=app, slug=name)
unfoldable pub readme : Text → Text → Text
readme app name =
    (codes "# ")
    ++ (app
        ++ ((codes
              "\n\nA [Vignemale](https://github.com/vignemale-org/vignemale) app — Infrastructure-from-Code in Python.\n\n## Getting started\n\n```bash\npip install vignemale\nvignemale run app.py\n```\n\n```bash\ncurl 127.0.0.1:8080/hello\ncurl -X POST 127.0.0.1:8080/greet -d '{\"name\":\"Ada\"}'\n```\n\n## Deploy\n\n```bash\nvignemale login              # once\nvignemale link ")
            ++ (name
                ++ (codes
                    "         # link this repo to the project (created in the panel)\nvignemale deploy             # push-to-deploy\n```\n"))))
