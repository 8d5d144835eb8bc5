-- ===== src/Lib.antt =====
-- A model of ssh-bot, a Feishu (Lark) chat bot that answers with a language model and its tools, and
-- proofs about it. A message starts a turn of the agent (internal/agent): the history of the session
-- (internal/session) goes to a provider (internal/llm), whose stream of events drives the loop and
-- the card in the chat (internal/render); the tools that the model calls come from a registry
-- (internal/tool). A lock in Redis keeps the turns of one session apart.
--
-- Llm models internal/llm: Llm/Types is types.go, Llm/Translate is translateStream of
--   eino_adapter.go, with the chunks and the end of the reader as data, Llm/Adapter the rest of that
--   file, Llm/Providers is provider.go.
-- Session models internal/session: Session and Session/Itoa are store.go (TrimMessages, itoa),
--   Session/Store the interface Store, Session/Memory memory.go, Session/Redis redis.go and
--   Session/Lock lock.go. A store is a record of operations that pass its state on.
-- Tool models internal/tool: Tool/Registry is registry.go.
-- Agent models internal/agent: Agent/Context is context.go; of loop.go, Agent/Exec is execTools and
--   execOne, Agent/Turn the loop over one stream's events, and Agent/Loop Run. An early return is a
--   value of Flow. The loop over the steps counts the steps left down, so it needs no fuel.
-- Lark models internal/lark: Lark/Parser is parser.go, Lark/Commands is commands.go over any store, and
--   Lark/Handler is Handle of handler.go over any store, with those commands, as the list of what it
--   does, given what the other parts answer.
-- Oauth models internal/oauth: Oauth/State is state.go with HMAC and base64 as parameters,
--   Oauth/Keys the checks of both keys, Oauth/Encryptor and Oauth/Refresh are tokens.go, Oauth/Store
--   is store.go, Oauth/Endpoint the answers of the token endpoint, Oauth/Start and Oauth/Callback
--   the handlers of server.go and Oauth/Limiter its rate limiter. A handler returns its response
--   with the limiter, the store and the messages sent.
-- Mcp models internal/mcp: Mcp/Adapter is adapter.go, Mcp/Manager manager.go and client.go, with
--   the loop of cmd/bot/main.go that registers the tools. The servers are a state of the client
--   library.
-- Config models internal/config: Config/Dotenv is dotenv.go, with the files as lists of lines and
--   the environment as a map, Config/Settings the expansion, the look-ups and the checks of
--   config.go.
-- Builtin models internal/tool/builtin: Builtin/Datetime is datetime.go, Builtin/Fetch is
--   web_fetch.go, whose calls also give the URLs that they request, Builtin/Search is web_search.go,
--   and Builtin/Docs and Builtin/Docs/Calls are feishu_doc.go, whose calls also give the access
--   tokens that they use.
-- Render models internal/render: Render/State and Render/Card are state.go, Render/Split and
--   Render/Feed renderer.go, Render/Markdown the line-based part of markdown.go. The call of
--   BuildCardJSON by itself is on fuel; two levels are enough where it ends at all. The loop of
--   SplitLongBody has the text's length as fuel, and takes a byte in every round. A pointer to a
--   tool entry is its position in the list.
-- Base holds byte strings, association lists for Go's maps, Boolean tests and list lemmas; Tests holds
--   runs at concrete inputs.
--
-- A Go string is a list of bytes. Parameters of the model are the Redis client, encoding/json, the
-- provider's stream, what a tool does, the order in which Go walks a map or in which concurrent tool
-- calls report their end, the Markdown functions of internal/render, and the clock. A panic of a tool
-- is one of its outcomes. Logging, contexts and the interval of the ticker do not show.
--
-- Not modelled: the syntax tree of markdown_ast.go in internal/render, the calls of the Lark SDK,
-- the HTTP server around the handlers of internal/oauth, the reading of the YAML file, logging and
-- the wiring in cmd/bot.
pub mod Base
pub mod Llm
pub mod Session
pub mod Tool
pub mod Agent
pub mod Render
pub mod Lark
pub mod Oauth
pub mod Mcp
pub mod Config
pub mod Builtin
pub mod Tests
