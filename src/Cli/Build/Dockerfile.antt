-- ===== src/Cli/Build/Dockerfile.antt =====
-- The Dockerfiles of `vignemale_cli/build.py`.
use vignemale.Prelude.{◌++◌}
use vignemale.Prelude.Text.{Text, codes}

-- `_dockerfile_fast(container_app, base)`
unfoldable pub dockerfile_fast : Text → Text → Text
dockerfile_fast container_app base =
    codes
      "# syntax=docker/dockerfile:1\n# Generated by `vignemale build` — app on top of the pre-compiled runtime.\nFROM "
    ++ (base
        ++ (codes "\nCOPY app/ /app/\nENTRYPOINT [\"python\", \"-m\", \"vignemale\", \""
            ++ (container_app ++ codes "\"]\n")))

abbrev builder_stage : Text
builder_stage =
    codes
      "# syntax=docker/dockerfile:1\n# Generated by `vignemale build --from-source` — compiles the runtime then the app.\n\n# ---- stage 1: compile the Rust+PyO3 wheel (abi3, stripped+LTO) via maturin ----\nFROM rust:1-bookworm AS builder\nRUN apt-get update && apt-get install -y --no-install-recommends \\\n        protobuf-compiler libprotobuf-dev patchelf python3 python3-dev python3-pip \\\n    && rm -rf /var/lib/apt/lists/*\nRUN pip install --break-system-packages --no-cache-dir 'maturin>=1.7,<2.0'\nENV PROTOC=/usr/bin/protoc\nWORKDIR /build\nCOPY src/ /build/\nRUN cd runtimes/python && maturin build --release --out /wheels\n\n"

abbrev installer_stage : Text
installer_stage =
    codes
      "# ---- stage 2: install the runtime ALONE (pydantic + .so) in a flat directory ----\nFROM python:3.11-slim-bookworm AS installer\nCOPY --from=builder /wheels/*.whl /tmp/\nRUN pip install --no-cache-dir --target=/pylibs /tmp/*.whl \\\n    && find /pylibs -type d -name __pycache__ -prune -exec rm -rf {} +\n\n"

abbrev final_stage : Text
final_stage =
    codes
      "# ---- stage 3: final distroless image (python 3.11, without shell or pip) ----\nFROM gcr.io/distroless/python3-debian12\nWORKDIR /app\nCOPY --from=installer /pylibs /pylibs\nCOPY app/ /app/\nENV PYTHONPATH=/pylibs \\\n    VIGNEMALE_ADDR=0.0.0.0:8080 \\\n    VIGNEMALE_WORKERS=1\nEXPOSE 8080\nENTRYPOINT [\"python\", \"-m\", \"vignemale\", \""

-- `_dockerfile_source(container_app)`
unfoldable pub dockerfile_source : Text → Text
dockerfile_source container_app =
    builder_stage ++ (installer_stage ++ (final_stage ++ (container_app ++ codes "\"]\n")))
