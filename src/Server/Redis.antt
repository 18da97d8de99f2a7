-- ===== src/Server/Redis.antt =====
-- The redis of the key centre and of a slave node, as a parameter.
use kyrin_box.Prelude.{Bytes}

-- `redisCommand`'s reply: none, an error, a string, or another type.
pub data RedisReply : Type 0 where
  no_reply redis_error other_reply : RedisReply
  string_reply : Bytes → RedisReply

pub record Redis : Type 1 where
  pub Db : Type 0
  pub get : Db → Bytes → RedisReply × Db
  pub set : Db → Bytes → Bytes → RedisReply × Db
