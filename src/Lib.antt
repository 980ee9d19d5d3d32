-- ===== src/Lib.antt =====
-- MetaModels: the data plane, its connectors, the services of the control plane and the worker.
--
-- MetaModels puts a gateway in front of the inference servers (flocks) of an organisation. A paddock is
-- a flock with a fence, the operator's rules for it; a consumer calls `/p/<slug>/…` with a key. The data
-- plane (apps/data-plane) authenticates the key, passes the request through the gates of the pipeline
-- (scope, rate limit, quota), lets the paddock's breed guard or handle it (packages/connectors: Ollama,
-- ComfyUI), sends it upstream with the flock's credential, and meters what was used.
--
-- The parts and their files:
--
-- JsMap, Json      JavaScript objects used as maps, in insertion order, and values of type `unknown`.
-- Connectors/Breed, Connectors/Io
--                  packages/connectors/src/breed.ts: the shapes that a breed and the data plane
--                  exchange, and the interface `BreedIO` of a breed to the state, here a record over a
--                  state type.
-- Connectors/Ollama
--                  packages/connectors/src/ollama: constraint.ts (`routeGroup`, `ollamaModelAllowed`)
--                  and breed.ts (`guard`, `meter`).
-- Connectors/Comfyui/Template
--                  packages/connectors/src/comfyui/template.ts: `reconstructGraph`, its loop as
--                  recursion over the template's parameters, its early returns as a result type.
-- Connectors/Comfyui/Result
--                  packages/connectors/src/comfyui/result.ts: `parseHistory` and `deriveGpuMs`.
-- Connectors/Comfyui/Submit
--                  packages/connectors/src/comfyui/breed.ts: `handle` over any `BreedIo`, and `guard`.
-- DataPlane/RateLimit
--                  apps/data-plane/src/ratelimit/rate-limiter.ts: `InMemoryRateLimiter.check`, which
--                  takes and gives back the hits by bucket.
-- DataPlane/JobStore
--                  apps/data-plane/src/jobs: both stores as maps of jobs. An SQL statement of the
--                  Postgres store is one step, as the database runs it.
-- DataPlane/Cache  apps/data-plane/src/config/caching-config-store.ts: a lookup is the step before its
--                  `await` (`cached`) and the step after it (`fill`), so that runs can interleave them.
-- DataPlane/Proxy  apps/data-plane/src/proxy/proxy.ts and packages/connectors/src/upstream-auth.ts: the
--                  arguments of the call of `fetch`. The form of an upload is the object of its image's
--                  name and base64 text.
-- DataPlane/World, DataPlane/Breeds, DataPlane/Pipeline, DataPlane/JobResult
--                  apps/data-plane/src/pipeline.ts: `paddockScope`, `limits`, `run` and `jobResult`. The
--                  state `World` holds the limiter's hits, the jobs, what was metered and what was sent
--                  upstream; `build_io` is the implementation of `BreedIo` that the pipeline hands to a
--                  breed.
-- DataPlane/App    apps/data-plane/src/app.ts, unauthorized.ts and body-limit.ts: the two routes of
--                  consumers, `ALL /p/:slug/*` and `GET /p/:slug/result/:jobId`, from the key to the
--                  answer.
-- Worker           apps/worker/src: `applyEvents` on the rows of `usage_rollup`, `processOnce` and the
--                  loop of `main`, and `periodBucket` of packages/schema/src/period.ts. Redis is an
--                  interface, `Redis`, with the documented behaviour of `XREADGROUP … >` and `XACK` as
--                  its laws; what the parts of a date are is a parameter.
-- Schema           packages/schema/src: `Scan` reads texts as the regular expressions of sealed.ts do;
--                  `Sealed` is the envelope, `seal` and `openSealed`, with the cipher of `node:crypto`
--                  and the encoding of `Buffer` as the interface `Crypto`, whose documented laws are
--                  `CryptoLaws`; `Keyring` is `loadSealKeyring`, and `Reseal` is `resealUpstreamAuth`, a
--                  row at a time.
-- ControlPlane     apps/control-plane/src: `Authorize` is auth/authorize.ts, and `Database` the tables
--                  of packages/schema/src/schema.ts as lists of rows with what a service throws. `Keys`,
--                  `Seats`, `Users`, `Invites`, `Flocks`, `Paddocks` and `Licence` are the services of
--                  that name under server/, each a function of the actor, the input and the database: a
--                  transaction that throws gives no database back. `Members` is a relation with one step
--                  for each service that changes members or invites; times of a run do not decrease and
--                  the seats of an organisation are fixed.
-- Examples         concrete data, runs of the definitions, and the theorems applied to them.
--
-- Parameters of the model, which are code outside the repository, the world, or a part that is not
-- modelled: the schema checks of zod, `fetch`, the hash of a key, the configuration store behind the
-- cache, the registry of breeds, the aggregated usage, the random UUIDs, tokens, vectors and hashes, and
-- the seeds of the generator. Inputs of the services are what their schemas give. A `fetch` that throws
-- gives `none`. The clock is read once in each request. Responses are drained before they are metered,
-- and the sink takes every record: what a failing sink loses is not modelled. One registry holds breeds
-- of one type of fence. Numbers are integers: fractions, and the infinity that JSON can overflow to, are
-- left out, as are objects with keys of `Object.prototype`. No definition needs fuel: every loop of the
-- source runs over a list or a text, and the worker's runs over the outcomes of its cycles.
--
-- A service under the lock of its organisation is one step. Ids and times that the database makes are
-- arguments, `createdAt` and the order of a listing are left out, and `slice` counts characters.
--
-- Not modelled: the dispatch of the HTTP router and the health routes, the Redis limiter (a script that
-- Redis runs), the MCP endpoint, the fences, templates and listings of the control plane and its admin
-- API, the OpenID provider and the command line client.
pub mod Common
pub mod Connectors
pub mod ControlPlane
pub mod DataPlane
pub mod Examples
pub mod JsMap
pub mod Json
pub mod Schema
pub mod Worker
